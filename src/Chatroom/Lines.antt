-- ===== src/Chatroom/Lines.antt =====
-- What the clients of chatroom-app/client.cpp show of what the room of chatRoom.cpp passes on.
use build_your_own_stuff.Prelude.{
  ◌≡◌, refl, ap, sym, subst, ◌∙◌, List, [], ◌∷◌, ◌++◌, map, append_assoc, take-length-append, Text,
  Lacks, find, find-Lacks, find-append_char,
}
use build_your_own_stuff.Chatroom.Client.{shown_line, async_read}

-- A line that arrives in parts: those before the last, and the last, which the newline follows.
pub record Parts : Type 0 where
  pub before : List Text
  pub last : Text

abbrev pub joined : List Text → Text → Text
joined [] last = last
joined (part ∷ parts) last = part ++ joined parts last

abbrev pub line_of : Parts → Text
line_of p = joined p.before p.last

abbrev pub chunks_of : List Text → Text → List Text → List Text
chunks_of [] last more = (last ++ 10 ∷ []) ∷ more
chunks_of (part ∷ parts) last more = part ∷ chunks_of parts last more

abbrev pub arrivals : List Parts → List Text
arrivals [] = []
arrivals (p ∷ ps) = chunks_of p.before p.last (arrivals ps)

-- No line has a newline in it.
abbrev pub AreLines : List Parts → Type 0
AreLines [] = Unit {0}
AreLines (p ∷ ps) = Lacks 10 (line_of p) × AreLines ps

Lacks-front : (s t : Text) → Lacks 10 (s ++ t) → Lacks 10 s
Lacks-front [] t l = tt
Lacks-front (x ∷ s) t l = (l.0, Lacks-front s t l.1)

async_read-ended :
    (buffer s rest : Text) (chunk : Text) (chunks : List Text)
    → Lacks 10 s
    → buffer ++ chunk ≡ s ++ 10 ∷ rest
    → async_read buffer (chunk ∷ chunks) ≡ s ∷ async_read [] chunks
unfolding async_read
async_read-ended buffer s rest chunk chunks l e =
    let longer = async_read (buffer ++ chunk) chunks in
    let next = async_read [] chunks in
    ap (λ t. shown_line t (find 10 t) longer next) e
    ∙ ap (λ o. shown_line (s ++ 10 ∷ rest) o longer next) (find-append_char 10 s rest l)
    ∙ ap (λ t. t ∷ next) (take-length-append s (10 ∷ rest))

async_read-part :
    (buffer part : Text) (chunks : List Text)
    → Lacks 10 (buffer ++ part)
    → async_read buffer (part ∷ chunks) ≡ async_read (buffer ++ part) chunks
unfolding async_read
async_read-part buffer part chunks l =
    ap
      (λ o.
        shown_line (buffer ++ part) o (async_read (buffer ++ part) chunks) (async_read [] chunks))
      (find-Lacks 10 (buffer ++ part) l)

async_read-chunks :
    (buffer : Text) (parts : List Text) (last : Text) (more : List Text)
    → Lacks 10 (buffer ++ joined parts last)
    → async_read buffer (chunks_of parts last more)
      ≡ (buffer ++ joined parts last) ∷ async_read [] more
async_read-chunks buffer [] last more l =
    async_read-ended buffer (buffer ++ last) [] (last ++ 10 ∷ []) more l
      (sym (append_assoc buffer last (10 ∷ [])))
async_read-chunks buffer (part ∷ parts) last more l =
    let same = append_assoc buffer part (joined parts last) in
    let l' = subst (Lacks 10) (sym same) l in
    async_read-part buffer part (chunks_of parts last more)
      (Lacks-front (buffer ++ part) (joined parts last) l')
    ∙ async_read-chunks (buffer ++ part) parts last more l'
    ∙ ap (λ t. t ∷ async_read [] more) same

-- A client shows every line, in order, in whatever parts the lines arrive, as long as no part that
-- arrives at once reaches behind a newline; the lines have none in them.
pub async_read-arrivals :
    (ps : List Parts) → AreLines ps → async_read [] (arrivals ps) ≡ map line_of ps
async_read-arrivals [] l = unfold async_read in refl
async_read-arrivals (p ∷ ps) l =
    async_read-chunks [] p.before p.last (arrivals ps) l.0
    ∙ ap (λ ls. line_of p ∷ ls) (async_read-arrivals ps l.1)

-- Whatever arrives at once with a line, behind its newline, is not shown; the line is the first and has
-- no newline in it.
pub merged_lines_lost :
    (line behind : Text) (chunks : List Text)
    → Lacks 10 line
    → async_read [] ((line ++ 10 ∷ behind) ∷ chunks) ≡ line ∷ async_read [] chunks
merged_lines_lost line behind chunks l =
    async_read-ended [] line behind (line ++ 10 ∷ behind) chunks l refl
