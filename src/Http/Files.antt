-- ===== src/Http/Files.antt =====
-- http_server/utils/FileUtils.cpp. The file system is an argument: what opening a path and reading
-- it to its end gives, or `none` where it cannot be opened. The message on std::cerr is left out.
use build_your_own_stuff.Prelude.{
  ◌-◌, Bool, ◌&&◌, Option, none, some, [], length, drop, Text, codes, text_eq, leb, if◌then◌else◌,
}

abbrev pub Files : Type 0
Files = Text → Option Text

unfoldable pub ends_with : Text → Text → Bool
ends_with str suffix =
    leb (length suffix) (length str) && text_eq (drop (length str - length suffix) str) suffix

unfoldable pub read_file : Files → Text → Text
read_file files path = elim (files path) [ none ↦ [] | some content ↦ content ]

unfoldable pub get_mime_type : Text → Text
unfolding ends_with
get_mime_type path =
    if ends_with path (codes ".html")
    then codes "text/html"
    else if ends_with path (codes ".css")
    then codes "text/css"
    else if ends_with path (codes ".js")
    then codes "application/javascript"
    else if ends_with path (codes ".png")
    then codes "image/png"
    else if ends_with path (codes ".jpg")
    then codes "image/jpeg"
    else if ends_with path (codes ".ico")
    then codes "image/x-icon"
    else codes "text/plain"
