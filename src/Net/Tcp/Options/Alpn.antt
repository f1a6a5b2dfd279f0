-- ===== src/Net/Tcp/Options/Alpn.antt =====
-- ts/net/tcp.ts, `encodeAlpn`: the wire form read back.
use toki.Base.{
  ℕ, zero, suc, ◌≤◌, ◌≡◌, refl, Bool, true, false, not, ◌&&◌, ◌||◌, Option, none, some, List, [],
  ◌∷◌, ◌++◌, map, all, String, length, length-append, take, drop, take_left, drop_left, ltb, leb,
  ◌==◌, if◌then◌else◌, arith,
}
use toki.Net.Cipher.{Bytes}
use toki.Net.Tcp.Options.{encode_alpn, alpn_part}

-- A reader of the wire form, on fuel: a length byte that is not 0, and so many bytes.
pub cons_part : Bytes → Option (List Bytes) → Option (List Bytes)
cons_part b none = none
cons_part b (some rest) = some (b ∷ rest)

unfoldable pub decode : ℕ → Bytes → Option (List Bytes)
unfolding cons_part
decode fuel [] = some []
decode zero (n ∷ wire) = none
decode (suc fuel) (n ∷ wire) =
    let rest = cons_part (take n wire) (decode fuel (drop n wire)) in
    if n == 0 || ltb (length wire) n then none else rest

-- A protocol name has 1 to 255 bytes.
abbrev pub in_range : Bytes → Bool
in_range b = not (length b == 0) && leb (length b) 255

-- The wire form of names in range.
abbrev pub wire : List Bytes → Bytes
wire [] = []
wire (b ∷ bs) = length b ∷ (b ++ wire bs)

decode-wire :
    (bs : List Bytes) (fuel : ℕ)
    → all in_range bs ≡ true
    → length (wire bs) ≤ fuel
    → decode fuel (wire bs) ≡ some bs
unfolding decode cons_part
decode-wire [] fuel fits enough = refl
decode-wire (b ∷ bs) zero fits enough = absurd (omega arith)
decode-wire (b ∷ bs) (suc fuel) fits enough =
    let size = length-append b (wire bs) in
    let rest : decode fuel (wire bs) ≡ some bs =
      decode-wire bs fuel (ground arith) (omega (arith, size)) in
    let test : (length b == 0 || ltb (length (b ++ wire bs)) (length b)) ≡ false =
      ground (arith, size) in
    rw (take_left b (wire bs), drop_left b (wire bs), rest, test) refl

module _ (utf8 : String → Bytes) where
  encode_alpn-wire :
      (ps : List String)
      → encode_alpn utf8 ps
        ≡ (if all in_range (map utf8 ps) then some (wire (map utf8 ps)) else none)
  unfolding encode_alpn alpn_part
  encode_alpn-wire [] = refl
  encode_alpn-wire (p ∷ ps) = rw (encode_alpn-wire ps) (ground arith)

  -- Over any UTF-8 encoder: when every name has 1 to 255 bytes the list is encoded, and reading the
  -- wire form gives back the names' bytes in order; when some name is empty or longer, encoding throws.
  pub decode-encode_alpn :
      (ps : List String)
      → (all in_range (map utf8 ps) ≡ true
          → (w : Bytes) × (encode_alpn utf8 ps ≡ some w)
            × (decode (length w) w ≡ some (map utf8 ps)))
        × (all in_range (map utf8 ps) ≡ false → encode_alpn utf8 ps ≡ none)
  decode-encode_alpn ps = (
    λ fits. (
      wire (map utf8 ps),
      rw (encode_alpn-wire ps, fits) refl,
      decode-wire (map utf8 ps) (length (wire (map utf8 ps))) fits (omega arith),
    ),
    λ out. rw (encode_alpn-wire ps, out) refl,
  )
