-- ===== src/Http/Request.antt =====
-- http_server/handler/RequestHandler.cpp: from the raw request to the response.
use build_your_own_stuff.Prelude.{
  ℕ, Bool, true, false, ◌&&◌, ◌||◌, [], ◌∷◌, ◌++◌, length, Text, codes, decimal, text_eq, leb, ◌==◌,
  if◌then◌else◌,
}
use build_your_own_stuff.Http.Files.{Files, read_file, get_mime_type}

-- What operator>> on a stream takes for white space.
unfoldable pub is_space : ℕ → Bool
is_space c = c == 32 || (leb 9 c && leb c 13)

unfoldable pub skip_spaces : Text → Text
skip_spaces [] = []
skip_spaces (c ∷ cs) = let more = skip_spaces cs in if is_space c then more else c ∷ cs

unfoldable pub take_word : Text → Text
take_word [] = []
take_word (c ∷ cs) = let more = take_word cs in if is_space c then [] else c ∷ more

unfoldable pub drop_word : Text → Text
drop_word [] = []
drop_word (c ∷ cs) = let more = drop_word cs in if is_space c then c ∷ cs else more

-- ss >> word: the word, empty at the end of the stream, and the rest of the stream
unfoldable pub next_word : Text → Text × Text
next_word stream = let text = skip_spaces stream in (take_word text, drop_word text)

-- The second of the three words that are read.
unfoldable pub request_path : Text → Text
unfolding next_word
request_path raw_request = (next_word (next_word raw_request).1).0

unfoldable pub full_path : Text → Text
full_path path = codes "static" ++ (if text_eq path (codes "/") then codes "/index.html" else path)

abbrev pub crlf : Text → Text
crlf rest = 13 ∷ 10 ∷ rest

abbrev pub not_found : Text
not_found =
    codes "HTTP/1.1 404 Not Found"
    ++ crlf (codes "Content-Type: text/plain" ++ crlf (crlf (codes "File Not Found")))

unfoldable pub found_response : Text → Text → Text
found_response mime content =
    codes "HTTP/1.1 200 OK"
    ++ crlf (
        codes "Content-Type: "
        ++ (mime
            ++ crlf
                (codes "Content-Length: " ++ (decimal (length content) ++ crlf (crlf content)))))

abbrev pub is_empty : Text → Bool
is_empty [] = true
is_empty (c ∷ cs) = false

-- The response for a path of the file system and what was read there.
unfoldable pub respond : Text → Text → Text
unfolding found_response
respond path content =
    if is_empty content then not_found else found_response (get_mime_type path) content

unfoldable pub handle : Files → Text → Text
unfolding respond
handle files raw_request =
    let path = full_path (request_path raw_request) in respond path (read_file files path)
