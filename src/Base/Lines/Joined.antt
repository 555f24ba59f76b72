-- ===== src/Base/Lines/Joined.antt =====
-- Lines that are joined and read again.
use Prim.Native.Nat.{ℕ}
use mathlib.Core.Path.{◌≡◌, refl, ap, sym, ◌∙◌}
use mathlib.Core.Bool.{Bool, true, false, ◌&&◌, not}
use mathlib.Core.List.{List, [], ◌∷◌, ◌++◌, append_assoc, append-nil}
use native.Mathlib.Omega.{arith}
use cloud_agent.Base.Tests.{◌==◌}
use cloud_agent.Base.Lists.{All, any, any-append}
use cloud_agent.Base.Text.{Text, join}
use cloud_agent.Base.Lines.{strip_cr, lines_from, lines, ends_with}

-- A text without a line feed that no line break takes a carriage return from.
abbrev pub is_line : Text → Bool
is_line line = not (any (λ c. c == 10) line) && not (ends_with 13 line)

strip_cr-line : (line : Text) → ends_with 13 line ≡ false → strip_cr line ≡ line
unfolding strip_cr ends_with
strip_cr-line [] h = refl
strip_cr-line (c ∷ []) h = rw h
strip_cr-line (c ∷ d ∷ s) h = ap (◌∷◌ c) (strip_cr-line (d ∷ s) h)

lines_from-break :
    (read line s : Text)
    → any (λ c. c == 10) line ≡ false
    → lines_from read (line ++ 10 ∷ s) ≡ strip_cr (read ++ line) ∷ lines_from [] s
unfolding lines_from
lines_from-break [] [] s h = refl
lines_from-break (r ∷ read) [] s h =
    ap (λ t. strip_cr t ∷ lines_from [] s) (sym (append-nil (r ∷ read)))
lines_from-break [] (c ∷ line) s h =
    let plain : (c == 10) ≡ false = ground (arith, h) in
    rw plain (lines_from-break (c ∷ []) line s (ground (arith, h)))
lines_from-break (r ∷ read) (c ∷ line) s h =
    let plain : (c == 10) ≡ false = ground (arith, h) in
    rw plain (lines_from-break ((r ∷ read) ++ c ∷ []) line s (ground (arith, h)))
    ∙ ap (λ t. strip_cr t ∷ lines_from [] s) (append_assoc (r ∷ read) (c ∷ []) line)

lines_from-end :
    (r : ℕ) (read line : Text)
    → any (λ c. c == 10) line ≡ false
    → lines_from (r ∷ read) line ≡ ((r ∷ read) ++ line) ∷ []
unfolding lines_from
lines_from-end r read [] h = ap (λ t. t ∷ []) (sym (append-nil (r ∷ read)))
lines_from-end r read (c ∷ line) h =
    let plain : (c == 10) ≡ false = ground (arith, h) in
    rw plain (lines_from-end r (read ++ c ∷ []) line (ground (arith, h)))
    ∙ ap (λ t. t ∷ []) (append_assoc (r ∷ read) (c ∷ []) line)

both_false : (a b : Bool) → (not a && not b) ≡ true → (a ≡ false) × (b ≡ false)
both_false a b h = ground (arith, h)

pub is_line→plain :
    (line : Text)
    → is_line line ≡ true
    → (any (λ c. c == 10) line ≡ false) × (ends_with 13 line ≡ false)
is_line→plain line h = both_false (any (λ c. c == 10) line) (ends_with 13 line) h

closed_break :
    (line s : Text) (rest : List Text)
    → is_line line ≡ true
    → lines s ≡ rest
    → lines (line ++ 10 ∷ s) ≡ line ∷ rest
unfolding lines
closed_break line s rest h e =
    let (no_feed, no_return) = is_line→plain line h in
    lines_from-break [] line s no_feed ∙ rw (strip_cr-line line no_return, e)

-- Lines that are joined by line feeds, with a line feed after the last one, are read again.
pub lines-join_closed :
    (ls : List Text)
    → All (λ line. is_line line ≡ true) ls
    → lines (join (10 ∷ []) (ls ++ [] ∷ [])) ≡ ls
unfolding lines join
lines-join_closed [] h = refl
lines-join_closed (line ∷ []) h = closed_break line [] [] h.0 refl
lines-join_closed (line ∷ next ∷ ls) h =
    closed_break line (join (10 ∷ []) ((next ∷ ls) ++ [] ∷ [])) (next ∷ ls) h.0
      (lines-join_closed (next ∷ ls) h.1)

-- Lines joined by line feeds, of which the last is not empty, are read again.
pub lines-join_open :
    (ls : List Text) (c : ℕ) (last : Text)
    → All (λ line. is_line line ≡ true) ls
    → is_line (c ∷ last) ≡ true
    → lines (join (10 ∷ []) (ls ++ (c ∷ last) ∷ [])) ≡ ls ++ (c ∷ last) ∷ []
unfolding lines join
lines-join_open [] c last h hl =
    let (no_feed, _) = is_line→plain (c ∷ last) hl in
    let plain : (c == 10) ≡ false = ground (arith, no_feed) in
    rw plain (lines_from-end c [] last (ground (arith, no_feed)))
lines-join_open (line ∷ []) c last h hl =
    closed_break line (c ∷ last) ((c ∷ last) ∷ []) h.0 (lines-join_open [] c last tt hl)
lines-join_open (line ∷ next ∷ ls) c last h hl =
    closed_break line (join (10 ∷ []) ((next ∷ ls) ++ (c ∷ last) ∷ []))
      ((next ∷ ls) ++ (c ∷ last) ∷ []) h.0 (lines-join_open (next ∷ ls) c last h.1 hl)

-- What joined lines begin and end with.
pub join_last :
    (line : Text) (ls : List Text) (last : Text)
    → (s : Text) × (join (10 ∷ []) ((line ∷ ls) ++ last ∷ []) ≡ line ++ (s ++ last))
unfolding join
join_last line [] last = (10 ∷ [], refl)
join_last line (next ∷ ls) last =
    let (s, e) = join_last next ls last in
    (10 ∷ (next ++ s), ap (λ t. line ++ 10 ∷ t) (e ∙ sym (append_assoc next s last)))

ends_with-suffix : (e c : ℕ) (p s : Text) → ends_with e (p ++ c ∷ s) ≡ ends_with e (c ∷ s)
unfolding ends_with
ends_with-suffix e c [] s = refl
ends_with-suffix e c (a ∷ []) s = refl
ends_with-suffix e c (a ∷ b ∷ p) s = ends_with-suffix e c (b ∷ p) s

-- A line with characters before it that are no line feeds.
pub is_line-append :
    (p : Text) (c : ℕ) (s : Text)
    → any (λ d. d == 10) p ≡ false
    → is_line (c ∷ s) ≡ true
    → is_line (p ++ c ∷ s) ≡ true
is_line-append p c s hp hs =
    let (no_feed, no_return) = is_line→plain (c ∷ s) hs in
    rw (any-append (λ d. d == 10) p (c ∷ s), hp, ends_with-suffix 13 c p s, no_feed, no_return)
