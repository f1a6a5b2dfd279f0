-- ===== src/Http/Headers/Wire.antt =====
-- ts/http/response.ts: what a receiver that cuts the header block at its line ends reads back.
use toki.Base.{
  ℕ, ◌≡◌, refl, sym, ap, ◌∙◌, List, [], ◌∷◌, ◌++◌, map, append-nil, append_assoc, arith, ◌==◌,
  if◌then◌else◌, Bool-cases, inl, inr,
}
use toki.Base.Text.{Text, codes, remove_all, Without}
use toki.Http.Headers.{
  Header, Response, header_safe, header_line, crlf, is_unsafe, is_content_type, staged_block,
  response_block, to_native,
}

-- A receiver: the lines that end in LF, each without its LF; a last line with no end is dropped.
pub split_lines : Text → Text → List Text
split_lines line [] = []
split_lines line (c ∷ s) =
    let closed = line ∷ split_lines [] s in
    let longer = split_lines (line ++ c ∷ []) s in if c == 10 then closed else longer

-- The staged headers that stay: all but a Content-Type.
pub custom : List Header → List Header
custom [] = []
custom ((n, v) ∷ staged) = if is_content_type n then custom staged else (n, v) ∷ custom staged

-- The last staged Content-Type, or the response's own.
pub final_content_type : List Header → Text → Text
final_content_type [] own = own
final_content_type ((n, v) ∷ staged) own =
    final_content_type staged (if is_content_type n then v else own)

pub sent_headers : {B : Type 0} → Response B → List Header → List Header
sent_headers r staged =
    custom staged ++ (codes "Content-Type", final_content_type staged r.content_type) ∷ r.headers

-- One header as it stands on its line, the CR of the line end included.
pub line_of : Header → Text
line_of (n, v) = header_safe n ++ codes ": " ++ header_safe v ++ 13 ∷ []

abbrev concat : List Text → Text
concat [] = []
concat (t ∷ ts) = t ++ concat ts

abbrev block : List Header → Text
block hs = concat (map header_line hs)

concat-append : (xs ys : List Text) → concat (xs ++ ys) ≡ concat xs ++ concat ys
concat-append [] ys = refl
concat-append (x ∷ xs) ys = simp (concat-append xs ys, append_assoc)

map-append_headers :
    (xs ys : List Header) → map header_line (xs ++ ys) ≡ map header_line xs ++ map header_line ys
map-append_headers [] ys = refl
map-append_headers (x ∷ xs) ys = ap (◌∷◌ (header_line x)) (map-append_headers xs ys)

block-append : (xs ys : List Header) → block (xs ++ ys) ≡ block xs ++ block ys
block-append xs ys =
    rw (map-append_headers xs ys) (concat-append (map header_line xs) (map header_line ys))

response_block-block : (hs : List Header) (b : Text) → response_block hs b ≡ b ++ block hs
unfolding response_block
response_block-block [] b = sym (append-nil b)
response_block-block (h ∷ hs) b =
    rw (response_block-block hs (b ++ header_line h)) (append_assoc b (header_line h) (block hs))

staged_block-block :
    (staged : List Header) (b ct : Text)
    → staged_block staged b ct ≡ (b ++ block (custom staged), final_content_type staged ct)
unfolding staged_block custom final_content_type
staged_block-block [] b ct = λ i. (sym (append-nil b) i, ct)
staged_block-block ((n, v) ∷ staged) b ct = elim (Bool-cases (is_content_type n)) [
  | inl yes' ↦ rw (yes', staged_block) (staged_block-block staged b v)
  | inr no' ↦
      rw (no', staged_block)
        (staged_block-block staged (b ++ header_line (n, v)) ct ∙ λ i. (
          append_assoc b (header_line (n, v)) (block (custom staged)) i,
          final_content_type staged ct,
        ))
]

to_native-block :
    {B : Type 0} (r : Response B) (staged : List Header)
    → (to_native r staged).headers ≡ block (sent_headers r staged)
unfolding to_native sent_headers
to_native-block r staged =
    let ct : Header = (codes "Content-Type", final_content_type staged r.content_type) in
    rw (response_block-block, staged_block-block)
      (append_assoc (block (custom staged)) (header_line ct) (block r.headers)
        ∙ sym (block-append (custom staged) (ct ∷ r.headers)))

remove_all-Without : (s : Text) → Without 10 (remove_all is_unsafe s)
unfolding remove_all
remove_all-Without [] = tt
remove_all-Without (c ∷ s) = ground (arith, remove_all-Without s)

split_lines-line :
    (line t rest : Text)
    → Without 10 t
    → split_lines line (t ++ 13 ∷ 10 ∷ rest) ≡ (line ++ t ++ 13 ∷ []) ∷ split_lines [] rest
unfolding split_lines
split_lines-line line [] rest h = rw (append-nil line)
split_lines-line line (c ∷ t) rest h =
    ground (arith, h.0, split_lines-line (line ++ c ∷ []) t rest h.1, append_assoc line (c ∷ []) t)

Without-append : (c : ℕ) (s t : Text) → Without c s → Without c t → Without c (s ++ t)
Without-append c [] t h k = k
Without-append c (d ∷ s) t h k = (h.0, Without-append c s t h.1 k)

split_lines-block : (hs : List Header) → split_lines [] (block hs) ≡ map line_of hs
unfolding line_of header_line header_safe split_lines
split_lines-block [] = refl
split_lines-block ((n, v) ∷ hs) =
    let name = header_safe n in
    let value = header_safe v in
    let text = name ++ codes ": " ++ value in
    let clean : Without 10 text =
      Without-append 10 _ value
        (Without-append 10 name (codes ": ") (remove_all-Without n) (omega arith))
        (remove_all-Without v) in
    rw (append_assoc text crlf (block hs))
      (split_lines-line [] text (block hs) clean ∙ ap (◌∷◌ (line_of (n, v))) (split_lines-block hs))

-- No header can split the block: whatever names and values hold, a receiver reads
-- exactly one line for each header meant, in order: the staged ones without Content-Type, one
-- Content-Type whose value is the last one staged or else that of the response, and those of the
-- response; each line is name, colon, value with their CR, LF and NUL left out.
pub to_native-lines :
    {B : Type 0} (r : Response B) (staged : List Header)
    → split_lines [] (to_native r staged).headers ≡ map line_of (sent_headers r staged)
to_native-lines r staged = rw (to_native-block r staged) (split_lines-block (sent_headers r staged))
