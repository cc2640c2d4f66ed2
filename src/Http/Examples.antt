-- ===== src/Http/Examples.antt =====
-- Witnesses and tests for http_server.
use build_your_own_stuff.Prelude.{
  ◌≡◌, refl, false, none, some, [], ◌∷◌, ◌++◌, arith, Text, codes, text_eq, value, if◌then◌else◌,
}
use build_your_own_stuff.Http.Files.{Files, read_file, get_mime_type}
use build_your_own_stuff.Http.Request.{
  is_space, take_word, skip_spaces, drop_word, request_path, full_path, crlf, not_found,
  found_response, handle,
}
use build_your_own_stuff.Http.Connection.{send, close, handle_client}
use build_your_own_stuff.Http.Words.{IsWord}
use build_your_own_stuff.Http.Response.{
  after_blank_line, served-path, root_is_index, empty_is_missing, content_length-found_response,
}

abbrev files : Files
files path =
    if text_eq path (codes "static/a.css")
    then some (codes "p {}")
    else if text_eq path (codes "static/empty")
    then some []
    else none

abbrev no_files : Files
no_files path = none

get : IsWord (codes "GET")
unfolding is_space
get = ground arith

a_css : IsWord (codes "/a.css")
unfolding is_space
a_css = ground arith

there : files (codes "static/a.css") ≡ some (codes "p {}")
unfolding text_eq
there = refl

no_root : text_eq (codes "/a.css") (codes "/") ≡ false
unfolding text_eq
no_root = refl

served-path_example :
    after_blank_line (handle files (codes "GET" ++ 32 ∷ (codes "/a.css" ++ 32 ∷ codes "HTTP/1.1")))
    ≡ some (codes "p {}")
served-path_example =
    served-path files (codes "GET") (codes "/a.css") (codes "HTTP/1.1") 112 (codes " {}") get a_css
      no_root there

root_request :
    handle files (codes "GET" ++ 32 ∷ (codes "/" ++ 32 ∷ codes "HTTP/1.1"))
    ≡ handle files (codes "GET" ++ 32 ∷ (codes "/index.html" ++ 32 ∷ codes "HTTP/1.1"))
root_request = root_is_index files (codes "GET") (codes "HTTP/1.1") get

empty_there : files (full_path (request_path (codes "GET /empty HTTP/1.1"))) ≡ some []
unfolding text_eq full_path request_path is_space take_word skip_spaces drop_word
empty_there = refl

empty_is_missing_test :
    handle files (codes "GET /empty HTTP/1.1") ≡ handle no_files (codes "GET /empty HTTP/1.1")
empty_is_missing_test =
    empty_is_missing files no_files (codes "GET /empty HTTP/1.1") empty_there refl

content_length-found_response_test :
    (head digits : Text) × (found_response (codes "text/css") (codes "p {}")
      ≡ head ++ (digits ++ crlf (crlf (codes "p {}"))))
    × (value 0 digits ≡ 4)
content_length-found_response_test = content_length-found_response (codes "text/css") (codes "p {}")

missing_response : handle files (codes "GET /nothing HTTP/1.1") ≡ not_found
unfolding handle text_eq read_file full_path request_path take_word skip_spaces drop_word is_space
missing_response = refl

css_type : get_mime_type (codes "static/a.css") ≡ codes "text/css"
unfolding get_mime_type text_eq
css_type = refl

one_connection : handle_client no_files 5 none ≡ send 5 not_found ∷ close 5 ∷ []
unfolding handle_client handle text_eq read_file
one_connection = refl
