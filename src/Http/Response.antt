-- ===== src/Http/Response.antt =====
-- What a client of the static file server can rely on: http_server/handler/RequestHandler.cpp.
use build_your_own_stuff.Prelude.{
  ℕ, ◌≡◌, refl, ap, sym, ◌∙◌, Bool, true, false, Option, none, some, [], ◌∷◌, ◌++◌, append_assoc,
  arith, length, take, drop, Text, codes, Lacks, text_eq, decimal, value, value-decimal,
  decimal-Lacks, ◌==◌, if◌then◌else◌,
}
use build_your_own_stuff.Http.Files.{Files, read_file, ends_with, get_mime_type}
use build_your_own_stuff.Http.Request.{
  is_space, request_path, full_path, crlf, not_found, found_response, respond, handle,
}
use build_your_own_stuff.Http.Words.{IsWord, request_path-words}

-- A client's reading of a response: what follows the first empty line.
unfoldable pub after_blank_line : Text → Option Text
after_blank_line [] = none
after_blank_line (c ∷ cs) =
    let more = after_blank_line cs in
    if text_eq (take 4 (c ∷ cs)) (crlf (crlf [])) then some (drop 3 cs) else more

after_blank_line-Lacks : (s t : Text) → Lacks 13 s → after_blank_line (s ++ t) ≡ after_blank_line t
unfolding after_blank_line text_eq
after_blank_line-Lacks [] t h = refl
after_blank_line-Lacks (c ∷ s) t h = rw h.0 (after_blank_line-Lacks s t h.1)

after_blank_line-crlf :
    (c : ℕ) (t : Text)
    → (c == 13) ≡ false
    → after_blank_line (crlf (c ∷ t)) ≡ after_blank_line (c ∷ t)
unfolding after_blank_line text_eq
after_blank_line-crlf c t h = rw h refl

after_blank_line-end : (t : Text) → after_blank_line (crlf (crlf t)) ≡ some t
unfolding after_blank_line text_eq
after_blank_line-end t = refl

Lacks-if : (b : Bool) (x y : Text) → Lacks 13 x → Lacks 13 y → Lacks 13 (if b then x else y)
Lacks-if true x y hx hy = hx
Lacks-if false x y hx hy = hy

get_mime_type-Lacks : (path : Text) → Lacks 13 (get_mime_type path)
unfolding get_mime_type
get_mime_type-Lacks path = Lacks-if (ends_with path (codes ".html")) _ _ (ground arith) (
    Lacks-if (ends_with path (codes ".css")) _ _ (ground arith) (
      Lacks-if (ends_with path (codes ".js")) _ _ (ground arith) (
        Lacks-if (ends_with path (codes ".png")) _ _ (ground arith) (
          Lacks-if (ends_with path (codes ".jpg")) _ _ (ground arith)
            (Lacks-if (ends_with path (codes ".ico")) _ _ (ground arith) (ground arith))))))

-- A client that reads past the first empty line of a found response has the content.
body-found_response :
    (path content : Text)
    → after_blank_line (found_response (get_mime_type path) content) ≡ some content
unfolding found_response
body-found_response path content =
    after_blank_line-Lacks (codes "HTTP/1.1 200 OK") _ (ground arith)
    ∙ after_blank_line-crlf 67 _ refl
    ∙ after_blank_line-Lacks (codes "Content-Type: ") _ (ground arith)
    ∙ after_blank_line-Lacks (get_mime_type path) _ (get_mime_type-Lacks path)
    ∙ after_blank_line-crlf 67 _ refl
    ∙ after_blank_line-Lacks (codes "Content-Length: ") _ (ground arith)
    ∙ after_blank_line-Lacks (decimal (length content)) _
        (decimal-Lacks (length content) 13 (omega arith))
    ∙ after_blank_line-end content

-- The response depends on the path of the request only.
handle-path :
    (files : Files) (raw_request path : Text)
    → request_path raw_request ≡ path
    → handle files raw_request ≡ respond (full_path path) (read_file files (full_path path))
unfolding handle
handle-path files raw_request path e =
    ap (λ p. respond (full_path p) (read_file files (full_path p))) e

full_path-plain :
    (path : Text) → text_eq path (codes "/") ≡ false → full_path path ≡ codes "static" ++ path
unfolding full_path
full_path-plain path h = rw h refl

full_path-root : full_path (codes "/") ≡ full_path (codes "/index.html")
unfolding full_path text_eq
full_path-root = refl

read_file-some :
    (files : Files) (path content : Text)
    → files path ≡ some content
    → read_file files path ≡ content
unfolding read_file
read_file-some files path content h = rw (h, read_file) refl

read_file-none : (files : Files) (path : Text) → files path ≡ none → read_file files path ≡ []
unfolding read_file
read_file-none files path h = rw (h, read_file) refl

respond-some :
    (path : Text) (c : ℕ) (cs : Text)
    → respond path (c ∷ cs) ≡ found_response (get_mime_type path) (c ∷ cs)
unfolding respond
respond-some path c cs = refl

respond-empty : (path : Text) → respond path [] ≡ not_found
unfolding respond
respond-empty path = refl

-- The content of a file that can be opened, and that is not empty, is served under its own
-- path, whatever the method is and whatever components the path has: where method and path are
-- words, and the path is not '/' alone.
pub served-path :
    (files : Files) (method path rest : Text) (c : ℕ) (cs : Text)
    → IsWord method
    → IsWord path
    → text_eq path (codes "/") ≡ false
    → files (codes "static" ++ path) ≡ some (c ∷ cs)
    → after_blank_line (handle files (method ++ 32 ∷ (path ++ 32 ∷ rest))) ≡ some (c ∷ cs)
served-path files method path rest c cs m p no_root there =
    ap after_blank_line (
      handle-path files _ path (request_path-words method path rest m p)
      ∙ ap (λ full. respond full (read_file files full)) (full_path-plain path no_root)
      ∙ ap (respond (codes "static" ++ path)) (read_file-some files _ (c ∷ cs) there)
      ∙ respond-some (codes "static" ++ path) c cs)
    ∙ body-found_response (codes "static" ++ path) (c ∷ cs)

-- A request for / gets the response of a request for /index.html.
pub root_is_index :
    (files : Files) (method rest : Text)
    → IsWord method
    → handle files (method ++ 32 ∷ (codes "/" ++ 32 ∷ rest))
      ≡ handle files (method ++ 32 ∷ (codes "/index.html" ++ 32 ∷ rest))
unfolding is_space
root_is_index files method rest m =
    handle-path files _ (codes "/") (request_path-words method (codes "/") rest m (ground arith))
    ∙ ap (λ full. respond full (read_file files full)) full_path-root
    ∙ sym (
        handle-path files _ (codes "/index.html")
          (request_path-words method (codes "/index.html") rest m (ground arith)))

-- A file that is there and empty gets the response of a file that cannot be opened.
pub empty_is_missing :
    (files others : Files) (raw_request : Text)
    → files (full_path (request_path raw_request)) ≡ some []
    → others (full_path (request_path raw_request)) ≡ none
    → handle files raw_request ≡ handle others raw_request
empty_is_missing files others raw_request empty missing =
    handle-path files raw_request _ refl
    ∙ ap (respond _) (read_file-some files _ [] empty ∙ sym (read_file-none others _ missing))
    ∙ sym (handle-path others raw_request _ refl)

-- The number behind Content-Length in a found response is the number of bytes behind its empty line.
pub content_length-found_response :
    (mime content : Text)
    → (head digits : Text) × (found_response mime content ≡ head ++ (digits ++ crlf (crlf content)))
      × (value 0 digits ≡ length content)
unfolding found_response
content_length-found_response mime content = (
  codes "HTTP/1.1 200 OK"
      ++ crlf (codes "Content-Type: " ++ (mime ++ crlf (codes "Content-Length: "))),
  decimal (length content),
  ap (λ t. codes "HTTP/1.1 200 OK" ++ crlf (codes "Content-Type: " ++ t))
      (sym (append_assoc mime (crlf (codes "Content-Length: ")) _)),
  value-decimal (length content),
)
