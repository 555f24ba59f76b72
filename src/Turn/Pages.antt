-- ===== src/Turn/Pages.antt =====
-- crates/agent-core/src/turn/utils.rs: the turns of a conversation in pages, from the last one
-- backwards. Of a turn only its id matters.
use cloud_agent.Base.{
  ℕ, zero, suc, ◌-◌, ◌≤◌, ◌<◌, max, ◌≡◌, refl, ap, sym, ◌∙◌, Bool, true, false, Option, none, some,
  List, [], ◌∷◌, ◌++◌, any, length, take, drop, get_elem?, ltb, arith, if◌then◌else◌, Bool-cases,
  inl, inr,
}
use cloud_agent.Base.Text.{Text, text_eq, text_eq_refl}

module _ {Turn : Type 0} (id : Turn → Text) where
  unfoldable pub turn_position : Text → List Turn → Option ℕ
  unfolding text_eq
  turn_position before_id [] = none
  turn_position before_id (turn ∷ turns) =
      let rest : Option ℕ = elim (turn_position before_id turns) [
        | none ↦ none
        | some i ↦ some (suc i)
      ] in
      if text_eq (id turn) before_id then some 0 else rest

  unfoldable pub end_exclusive : List Turn → Option Text → ℕ
  unfolding turn_position
  end_exclusive turns none = length turns
  end_exclusive turns (some before_id) = elim (turn_position before_id turns) [
    | none ↦ length turns
    | some i ↦ i
  ]

  -- The page that ends before an index: its turns, and the id before which the next one ends.
  unfoldable pub page_to : List Turn → ℕ → ℕ → List Turn × (Bool × Option Text)
  page_to turns end limit =
      let start = end - max limit 1 in
      let next : Option Text = elim (get_elem? turns start) [
        | none ↦ none
        | some t ↦ some (id t)
      ] in
      (take (end - start) (drop start turns), (ltb 0 start, if ltb 0 start then next else none))

  unfoldable pub paginate_turns : List Turn → Option Text → ℕ → List Turn × (Bool × Option Text)
  unfolding page_to end_exclusive
  paginate_turns [] before limit = ([], (false, none))
  paginate_turns (turn ∷ turns) before limit =
      page_to (turn ∷ turns) (end_exclusive (turn ∷ turns) before) limit

  -- A client that asks for page after page, and puts each one before those it has.
  pub all_pages : ℕ → List Turn → Option Text → ℕ → List Turn
  all_pages zero turns before limit = []
  all_pages (suc rounds) turns before limit =
      let (page, (has_more, next)) = paginate_turns turns before limit in
      let earlier = all_pages rounds turns next limit in if has_more then earlier ++ page else page

  -- No two turns have the same id.
  abbrev pub AreDistinct : List Turn → Type 0
  AreDistinct [] = Unit
  AreDistinct (turn ∷ turns) =
      (any (λ other. text_eq (id turn) (id other)) turns ≡ false) × AreDistinct turns

  any-none :
      (p : Turn → Bool) (turns : List Turn) (i : ℕ) (t : Turn)
      → any p turns ≡ false
      → get_elem? turns i ≡ some t
      → p t ≡ false
  any-none p [] i t h e = cc
  any-none p (u ∷ turns) zero t h e = let same : u ≡ t = cc e in ap p (sym same) ∙ ground (arith, h)
  any-none p (u ∷ turns) (suc i) t h e = any-none p turns i t (ground (arith, h)) e

  turn_position-at :
      (turns : List Turn) (i : ℕ) (t : Turn)
      → AreDistinct turns
      → get_elem? turns i ≡ some t
      → turn_position (id t) turns ≡ some i
  unfolding turn_position
  turn_position-at [] i t d e = cc
  turn_position-at (u ∷ turns) zero t d e =
      let same : u ≡ t = cc e in
      let found : text_eq (id u) (id t) ≡ true =
        ap (λ v. text_eq (id u) (id v)) (sym same) ∙ text_eq_refl (id u) in
      rw found
  turn_position-at (u ∷ turns) (suc i) t d e =
      let other = any-none (λ v. text_eq (id u) (id v)) turns i t d.0 e in
      rw (other, turn_position-at turns i t d.1 e)

  get_elem?-some :
      (turns : List Turn) (i : ℕ) → i < length turns → (t : Turn) × (get_elem? turns i ≡ some t)
  get_elem?-some [] i h = absurd (omega (arith, h))
  get_elem?-some (u ∷ turns) zero h = (u, refl)
  get_elem?-some (u ∷ turns) (suc i) h = get_elem?-some turns i (omega (arith, h))

  take-page :
      (start end : ℕ) (turns : List Turn)
      → start ≤ end
      → take start turns ++ take (end - start) (drop start turns) ≡ take end turns
  take-page zero end turns h = ap (λ n. take n turns) (omega arith)
  take-page (suc start) zero turns h = absurd (omega (arith, h))
  take-page (suc start) (suc end) [] h = take-nil (suc end - suc start)
    where
      take-nil : (n : ℕ) → take {A = Turn} n [] ≡ []
      take-nil zero = refl
      take-nil (suc n) = refl
  take-page (suc start) (suc end) (u ∷ turns) h =
      let less : suc end - suc start ≡ end - start = omega arith in
      ap (λ n. u ∷ (take start turns ++ take n (drop start turns))) less
      ∙ ap (◌∷◌ u) (take-page start end turns (omega (arith, h)))

  take-length : (turns : List Turn) → take (length turns) turns ≡ turns
  take-length [] = refl
  take-length (u ∷ turns) = ap (◌∷◌ u) (take-length turns)

  end_exclusive-at :
      (turns : List Turn) (i : ℕ) (t : Turn)
      → AreDistinct turns
      → get_elem? turns i ≡ some t
      → end_exclusive turns (some (id t)) ≡ i
  unfolding end_exclusive
  end_exclusive-at turns i t d e = rw (end_exclusive, turn_position-at turns i t d e)

  -- One page, and those before it.
  abbrev pages_from : ℕ → List Turn → ℕ → ℕ → List Turn
  pages_from rounds turns end limit =
      let (page, (has_more, next)) = page_to turns end limit in
      let earlier = all_pages rounds turns next limit in if has_more then earlier ++ page else page

  last_page :
      (rounds : ℕ) (turns : List Turn) (end limit : ℕ)
      → ltb 0 (end - max limit 1) ≡ false
      → pages_from rounds turns end limit ≡ take end turns
  unfolding page_to
  last_page rounds turns end limit h =
      let first : end - max limit 1 ≡ 0 = ground (arith, h) in
      let whole : end - 0 ≡ end = omega arith in rw (h, first, whole)

  more_pages :
      (rounds : ℕ) (turns : List Turn) (end limit : ℕ) (t : Turn)
      → ltb 0 (end - max limit 1) ≡ true
      → get_elem? turns (end - max limit 1) ≡ some t
      → pages_from rounds turns end limit
        ≡ all_pages rounds turns (some (id t)) limit
          ++ take (end - (end - max limit 1)) (drop (end - max limit 1) turns)
  unfolding page_to
  more_pages rounds turns end limit t h e = rw (h, e)

  all_pages-to :
      (rounds : ℕ) (turns : List Turn) (before : Option Text) (limit : ℕ)
      → AreDistinct turns
      → end_exclusive turns before ≤ length turns
      → end_exclusive turns before < rounds
      → all_pages rounds turns before limit ≡ take (end_exclusive turns before) turns
  unfolding all_pages paginate_turns
  all_pages-to zero turns before limit d le lt = absurd (omega (arith, lt))
  all_pages-to (suc rounds) [] before limit d le lt = sym (take-nil (end_exclusive [] before))
    where
      take-nil : (n : ℕ) → take {A = Turn} n [] ≡ []
      take-nil zero = refl
      take-nil (suc n) = refl
  all_pages-to (suc rounds) (u ∷ us) before limit d le lt =
      let turns = u ∷ us in
      let end = end_exclusive turns before in
      let start = end - max limit 1 in
      elim (Bool-cases (ltb 0 start)) [
        | inr last ↦ last_page rounds turns end limit last
        | inl more ↦
            let below : start < length turns = ground (arith, more, le) in
            let (t, e) = get_elem?-some turns start below in
            let here = end_exclusive-at turns start t d e in
            let ih =
              all_pages-to rounds turns (some (id t)) limit d (ground (arith, here, below))
                (ground (arith, here, more, lt)) in
            more_pages rounds turns end limit t more e
            ∙ ap (λ ts. ts ++ take (end - start) (drop start turns))
                (ih ∙ ap (λ n. take n turns) here)
            ∙ take-page start end turns (omega arith)
      ]

  -- If no two turns of the conversation have the same id: a client that asks for the last page and
  -- then, as long as there are more, for the page before the id that it was given, gets every turn
  -- of the conversation once and in order, whatever the limit, and after at most as many pages as
  -- there are turns and one more.
  pub all_pages-eq :
      (turns : List Turn) (limit : ℕ)
      → AreDistinct turns
      → all_pages (suc (length turns)) turns none limit ≡ turns
  unfolding end_exclusive
  all_pages-eq turns limit d =
      all_pages-to (suc (length turns)) turns none limit d (omega arith) (omega arith)
      ∙ take-length turns
