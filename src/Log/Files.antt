-- ===== src/Log/Files.antt =====
-- What the file of a FileLogAppender in src/log/log.cpp holds after a sequence of messages.
use cpp_server_framework.Prelude.{
  ℕ, ◌≡◌, ◌≢◌, refl, sym, ap, ◌∙◌, inl, inr, true, false, Bool-cases, Text, List, [], ◌∷◌, ◌++◌,
  All, append_assoc, append-nil, ◌==◌, if◌then◌else◌, arith,
}
use cpp_server_framework.Log.Loggers.{FileStream, reopen, refresh, write_file, Sink, write_sink}

-- The messages, each with the second it is written at; the file can be opened.
abbrev pub write_all : List (ℕ × Text) → Sink → Sink
write_all [] sink = sink
write_all (e ∷ es) sink = write_all es (write_sink true e.0 e.1 sink).0

abbrev pub texts : List (ℕ × Text) → Text
texts [] = []
texts (e ∷ es) = e.1 ++ texts es

-- What is in the file; nothing is kept of the standard output.
abbrev pub content_of : Sink → Text
content_of Sink.to_stdout = []
content_of (Sink.to_file f) = f.content

write_all-append :
    (es fs : List (ℕ × Text)) (sink : Sink)
    → write_all (es ++ fs) sink ≡ write_all fs (write_all es sink)
write_all-append [] fs sink = refl
write_all-append (e ∷ es) fs sink = write_all-append es fs (write_sink true e.0 e.1 sink).0

-- Open, and refreshed at this second.
abbrev IsCurrent : ℕ → FileStream → Type 0
IsCurrent t f = (f.is_open ≡ true) × (f.reopen_time ≡ t)

-- A message at the second of the last one is added.
write_sink_current :
    (t u : ℕ) (x : Text) (f : FileStream)
    → IsCurrent t f
    → u ≡ t
    → write_sink true u x (Sink.to_file f)
      ≡ (Sink.to_file (record f { content = f.content ++ x }), [])
write_sink_current t u x f now e =
    let same : (f.reopen_time == u) ≡ true = ground (arith, now.1, e) in
    ap
      (λ b. (
        Sink.to_file (write_file x (if b then f else record (reopen true f) { reopen_time = u })),
        [],
      ))
      same
    ∙ ap (λ b. (Sink.to_file (if b then record f { content = f.content ++ x } else f), [])) now.0

write_current :
    (t : ℕ) (es : List (ℕ × Text)) (f : FileStream)
    → IsCurrent t f
    → All (λ e. e.0 ≡ t) es
    → content_of (write_all es (Sink.to_file f)) ≡ f.content ++ texts es
write_current t [] f now same = sym (append-nil f.content)
write_current t (e ∷ es) f now same =
    ap (λ r. content_of (write_all es r.0)) (write_sink_current t e.0 e.1 f now same.0)
    ∙ write_current t es (record f { content = f.content ++ e.1 }) now same.1
    ∙ append_assoc f.content e.1 (texts es)

-- A message at another second is alone in the file.
write_sink_next :
    (t : ℕ) (x : Text) (f : FileStream)
    → f.reopen_time ≢ t
    → write_sink true t x (Sink.to_file f)
      ≡ (Sink.to_file (record f { is_open = true; reopen_time = t; content = x }), [])
unfolding reopen
write_sink_next t x f differs =
    let other : (f.reopen_time == t) ≡ false = ground (arith, differs) in
    ap
      (λ b. (
        Sink.to_file (write_file x (if b then f else record (reopen true f) { reopen_time = t })),
        [],
      ))
      other

-- The second that a file remembers is that of the last message.
write_file_time : (x : Text) (f : FileStream) → (write_file x f).reopen_time ≡ f.reopen_time
write_file_time x f = elim (Bool-cases f.is_open) [
  | inl on ↦ ap (λ b. (if b then record f { content = f.content ++ x } else f).reopen_time) on
  | inr off ↦ ap (λ b. (if b then record f { content = f.content ++ x } else f).reopen_time) off
]

refresh_time : (u : ℕ) (f : FileStream) → (refresh true u f).reopen_time ≡ u
refresh_time u f = elim (Bool-cases (f.reopen_time == u)) [
  | inl same ↦
      let e : f.reopen_time ≡ u = ground (arith, same) in
      ap (λ b. (if b then f else record (reopen true f) { reopen_time = u }).reopen_time) same ∙ e
  | inr other ↦
      ap (λ b. (if b then f else record (reopen true f) { reopen_time = u }).reopen_time) other
]

write_all-file :
    (es : List (ℕ × Text)) (u : ℕ) (x : Text) (f : FileStream)
    → (g : FileStream) × ((write_all (es ++ ((u, x) ∷ [])) (Sink.to_file f) ≡ Sink.to_file g)
        × (g.reopen_time ≡ u))
write_all-file [] u x f = (
  write_file x (refresh true u f),
  (refl, write_file_time x (refresh true u f) ∙ refresh_time u f),
)
write_all-file (e ∷ es) u x f = write_all-file es u x (write_file e.1 (refresh true e.0 f))

-- If its file can be opened, then once messages were written at one second and the next ones all at
-- another, the file of a FileLogAppender holds just the texts of the latter.
pub write_sink_second :
    (before after : List (ℕ × Text)) (u t : ℕ) (x y : Text) (f : FileStream)
    → u ≢ t
    → All (λ e. e.0 ≡ t) after
    → content_of (write_all ((before ++ ((u, x) ∷ [])) ++ ((t, y) ∷ after)) (Sink.to_file f))
      ≡ texts ((t, y) ∷ after)
write_sink_second before after u t x y f differs same =
    let g = write_all-file before u x f in
    let other : g.0.reopen_time ≢ t = λ e. differs (sym g.1.1 ∙ e) in
    ap content_of (write_all-append (before ++ ((u, x) ∷ [])) ((t, y) ∷ after) (Sink.to_file f))
    ∙ ap (λ s. content_of (write_all ((t, y) ∷ after) s)) g.1.0
    ∙ ap (λ r. content_of (write_all after r.0)) (write_sink_next t y g.0 other)
    ∙ write_current t after (record g.0 { is_open = true; reopen_time = t; content = y })
        (refl, refl) same
