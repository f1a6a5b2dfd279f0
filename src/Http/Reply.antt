-- ===== src/Http/Reply.antt =====
-- ts/http/response.ts: the results of handlers, and the builders of `reply`. `J` is the type of the
-- plain values that go out as JSON and `St` that of streams; `stringify` is `JSON.stringify`.
use toki.Base.{ℕ, Bool, true, false, List, [], ◌∷◌}
use toki.Base.Text.{Text, codes}
use toki.Http.Headers.{Header, Response}

pub data Body : Type 0 where
  chars : Text → Body
  octets : List ℕ → Body

abbrev pub TokiResponse : Type 0
TokiResponse = Response Body

pub data HandlerResult (J St : Type 0) : Type 0 where
  response : TokiResponse → HandlerResult J St
  stream : St → HandlerResult J St
  string : Text → HandlerResult J St
  json : J → HandlerResult J St

abbrev pub text_type : Text
text_type = codes "text/plain; charset=utf-8"

abbrev pub html_type : Text
html_type = codes "text/html; charset=utf-8"

abbrev pub json_type : Text
json_type = codes "application/json; charset=utf-8"

unfoldable pub make : ℕ → Text → Body → List Header → TokiResponse
make status content_type body headers = record {
  status = status;
  content_type = content_type;
  headers = headers;
  body = body;
}

-- `rawResponse`
unfoldable pub raw_response : ℕ → Text → Body → List Header → TokiResponse
unfolding make
raw_response status content_type body headers = make status content_type body headers

-- `jsonResponse`
unfoldable pub json_response : Text → ℕ → TokiResponse
json_response serialized status = record {
  status = status;
  content_type = json_type;
  headers = [];
  body = chars serialized;
}

-- `reply.text`
unfoldable pub reply_text : Text → ℕ → TokiResponse
unfolding make
reply_text body status = make status text_type (chars body) []

-- `reply.html`
unfoldable pub reply_html : Text → ℕ → TokiResponse
unfolding make
reply_html body status = make status html_type (chars body) []

-- `reply.empty`
unfoldable pub reply_empty : ℕ → TokiResponse
unfolding make
reply_empty status = make status text_type (chars []) []

-- `reply.redirect`
unfoldable pub reply_redirect : Text → ℕ → TokiResponse
unfolding make
reply_redirect location status =
    make status text_type (chars []) ((codes "Location", location) ∷ [])

-- `reply.bytes`
unfoldable pub reply_bytes : List ℕ → Text → ℕ → TokiResponse
unfolding make
reply_bytes octets_of content_type status = make status content_type (octets octets_of) []

module _ {J St : Type 0} where
  -- `isTokiResponse`
  abbrev pub is_toki_response : HandlerResult J St → Bool
  is_toki_response (response r) = true
  is_toki_response _ = false

  -- `isStreamResponse`
  abbrev pub is_stream_response : HandlerResult J St → Bool
  is_stream_response (stream s) = true
  is_stream_response _ = false

module _ {J St : Type 0} (stringify : HandlerResult J St → Text) where
  -- `reply.json`
  unfoldable pub reply_json : HandlerResult J St → ℕ → TokiResponse
  unfolding make
  reply_json value status = make status json_type (chars (stringify value)) []

  unfoldable pub normalize : HandlerResult J St → TokiResponse
  unfolding reply_text reply_json
  normalize (string s) = reply_text s 200
  normalize (response r) = r
  normalize other = reply_json other 200
