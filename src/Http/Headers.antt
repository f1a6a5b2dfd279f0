-- ===== src/Http/Headers.antt =====
-- Response headers: staging on the request (ts/http/request.ts) and the wire block that the native
-- engine writes (ts/http/response.ts). Bodies are abstract: nothing here looks into one.
pub mod Wire
pub mod Staging
use toki.Base.{
  ℕ, Bool, true, false, ◌||◌, Option, none, some, List, [], ◌∷◌, ◌++◌, ◌==◌, if◌then◌else◌,
}
use toki.Base.Text.{Text, codes, text_eq, to_lower_case, remove_all}

abbrev pub Header : Type 0
Header = Text × Text

pub record Response (Body : Type 0) : Type 0 where
  pub status : ℕ
  pub content_type : Text
  pub headers : List Header
  pub body : Body

pub record NativeResponse (Body : Type 0) : Type 0 where
  pub status : ℕ
  pub headers : Text
  pub body : Body

-- `a.toLowerCase() === b.toLowerCase()`
abbrev pub same_name : Text → Text → Bool
same_name a b = text_eq (to_lower_case a) (to_lower_case b)

-- `setResponseHeader`: the first entry of that name is replaced, otherwise one is pushed.
unfoldable pub set_response_header : Text → Text → List Header → List Header
set_response_header name value [] = (name, value) ∷ []
set_response_header name value ((n, v) ∷ staged) =
    if same_name n name
    then (name, value) ∷ staged
    else (n, v) ∷ set_response_header name value staged

-- `appendResponseHeader`
unfoldable pub append_response_header : Text → Text → List Header → List Header
append_response_header name value staged = staged ++ (name, value) ∷ []

-- The characters of `/[\r\n\0]/`.
abbrev pub is_unsafe : ℕ → Bool
is_unsafe c = c == 13 || c == 10 || c == 0

unfoldable pub header_safe : Text → Text
header_safe part = remove_all is_unsafe part

abbrev pub crlf : Text
crlf = 13 ∷ 10 ∷ []

-- `${headerSafe(name)}: ${headerSafe(value)}\r\n`
unfoldable pub header_line : Header → Text
header_line (name, value) = header_safe name ++ codes ": " ++ header_safe value ++ crlf

abbrev pub is_content_type : Text → Bool
is_content_type name = text_eq (to_lower_case name) (codes "content-type")

-- The first loop of `toNative`: the block so far, and the content type that stands.
unfoldable pub staged_block : List Header → Text → Text → Text × Text
staged_block [] headers content_type = (headers, content_type)
staged_block ((name, value) ∷ staged) headers content_type = elim (is_content_type name) [
  | true ↦ staged_block staged headers value
  | false ↦ staged_block staged (headers ++ header_line (name, value)) content_type
]

-- The second loop.
unfoldable pub response_block : List Header → Text → Text
response_block [] headers = headers
response_block (h ∷ hs) headers = response_block hs (headers ++ header_line h)

unfoldable pub to_native : {B : Type 0} → Response B → List Header → NativeResponse B
to_native r staged =
    let (headers, content_type) = staged_block staged [] r.content_type in
    record {
      status = r.status;
      headers =
          response_block r.headers (headers ++ header_line (codes "Content-Type", content_type));
      body = r.body;
    }
