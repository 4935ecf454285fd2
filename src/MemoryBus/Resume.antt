-- ===== src/MemoryBus/Resume.antt =====
-- Replays that go on behind one another.
use atlas_pulse.Prelude.{
  ℕ, zero, suc, ◌+◌, ◌≤◌, ◌<◌, ◌≡◌, true, Option, none, some, List, [], ◌∷◌, ◌++◌, length, take,
  drop, last?, nat_eq, if◌then◌else◌, Text, refl, arith, Option-cases, Bool-cases, inl, inr, ap,
  ◌∙◌, take-append-take-drop, if_ind,
}
use mathlib.Core.Path.{subst}
use atlas_pulse.Prelude.{sym}
use atlas_pulse.StreamId.{local_id, stream_position, position_ltb, stream_position-local_id}
use atlas_pulse.MemoryBus.{
  BusMessage, Bus, known_id, empty, append, publish, publish_many, after_cursor, visible_from,
  replay,
}

position_ltb_trans :
    (p q r : ℕ × ℕ) → position_ltb p q ≡ true → position_ltb q r ≡ true → position_ltb p r ≡ true
unfolding position_ltb
position_ltb_trans p q r h k = ground arith

position_ltb_le :
    (p : ℕ × ℕ) (k j : ℕ) → position_ltb p (0, k) ≡ true → k ≤ j → position_ltb p (0, j) ≡ true
unfolding position_ltb
position_ltb_le p k j h low = ground arith

last?-nonempty :
    {A : Type 0} (a : ℕ) (xs : List A) (x : A)
    → last? (take (suc a) xs) ≡ some x
    → (p : A × List A) × (xs ≡ p.0 ∷ p.1)
last?-nonempty a [] x h = cc
last?-nonempty a (y ∷ xs) x h = ((y, xs), refl)

module _ {E : Type 0} where
  -- The ids count up from a number.
  abbrev pub CountsUp : ℕ → List (BusMessage E) → Type 0
  CountsUp n [] = Unit
  CountsUp n (m ∷ ms) = (m.stream_id ≡ local_id n) × CountsUp (n + 1) ms

  CountsUp-snoc :
      (n : ℕ) (ms : List (BusMessage E)) (m : BusMessage E)
      → CountsUp n ms
      → m.stream_id ≡ local_id (length ms + n)
      → CountsUp n (ms ++ m ∷ [])
  CountsUp-snoc n [] m c e = (ground arith, tt)
  CountsUp-snoc n (x ∷ ms) m (first, c) e = (first, CountsUp-snoc (n + 1) ms m c (ground arith))

  after_cursor-behind :
      (p : ℕ × ℕ) (n : ℕ) (m : BusMessage E) (ms : List (BusMessage E))
      → m.stream_id ≡ local_id n
      → after_cursor p (m ∷ ms) ≡ (if position_ltb p (0, n) then m ∷ ms else after_cursor p ms)
  unfolding after_cursor
  after_cursor-behind p n m ms e = ground (arith, stream_position-local_id n)

  -- What is behind a cursor counts up from a number behind it.
  abbrev Follows : ℕ × ℕ → List (BusMessage E) → Type 0
  Follows p [] = Unit
  Follows p (m ∷ ms) = (k : ℕ) × CountsUp k (m ∷ ms) × (position_ltb p (0, k) ≡ true)

  after_cursor-Follows :
      (p : ℕ × ℕ) (n : ℕ) (ms : List (BusMessage E)) → CountsUp n ms → Follows p (after_cursor p ms)
  unfolding after_cursor
  after_cursor-Follows p n [] c = tt
  after_cursor-Follows p n (m ∷ ms) (first, c) =
      subst (Follows p) (sym (after_cursor-behind p n m ms first)) (
        if_ind (Follows p) (position_ltb p (0, n)) (λ behind. (n, (first, c), behind))
          (λ _. after_cursor-Follows p (n + 1) ms c))

  -- A later cursor cuts what an earlier one has left as it cuts all.
  after_cursor-again :
      (p q : ℕ × ℕ) (n : ℕ) (ms : List (BusMessage E))
      → CountsUp n ms
      → position_ltb p q ≡ true
      → after_cursor q (after_cursor p ms) ≡ after_cursor q ms
  after_cursor-again p q n [] c h = unfold after_cursor in refl
  after_cursor-again p q n (m ∷ ms) (first, c) h = elim (Bool-cases (position_ltb p (0, n))) [
    | inl behind ↦ ap (after_cursor q) (after_cursor-behind p n m ms first ∙ ground arith)
    | inr before ↦ ground (
      arith,
      after_cursor-behind p n m ms first,
      after_cursor-behind q n m ms first,
      position_ltb_trans p q (0, n),
      after_cursor-again p q (n + 1) ms c,
    )
  ]

  -- Below the first of the messages nothing is cut.
  after_cursor-all :
      (k n : ℕ) (ms : List (BusMessage E)) → CountsUp n ms → k < n → after_cursor (0, k) ms ≡ ms
  unfolding after_cursor position_ltb
  after_cursor-all k n [] c h = refl
  after_cursor-all k n (m ∷ ms) (first, c) h = ground (arith, stream_position-local_id n)

  -- The last of the first messages marks where the others start.
  after_cursor-last :
      (a n : ℕ) (ms : List (BusMessage E)) (m : BusMessage E)
      → CountsUp n ms
      → last? (take (suc a) ms) ≡ some m
      → (k : ℕ) × (stream_position m.stream_id ≡ some (0, k))
        × (n ≤ k)
        × (after_cursor (0, k) ms ≡ drop (suc a) ms)
  unfolding after_cursor position_ltb
  after_cursor-last a n [] m c h = cc
  after_cursor-last zero n (x ∷ ms) m (first, c) h = (
    n,
    ground (arith, stream_position-local_id n),
    omega arith,
    ground (arith, stream_position-local_id n, after_cursor-all n (n + 1) ms c),
  )
  after_cursor-last (suc a) n (x ∷ []) m (first, c) h = (
    n,
    ground (arith, stream_position-local_id n),
    omega arith,
    ground (arith, stream_position-local_id n),
  )
  after_cursor-last (suc a) n (x ∷ y ∷ ms) m (first, c) h =
      let (k, at, low, cut) = after_cursor-last a (n + 1) (y ∷ ms) m c h in
      (k, at, omega arith, ground (arith, stream_position-local_id n))

  replay_from :
      (before : Option (ℕ × ℕ)) (n : ℕ) (ms : List (BusMessage E)) (a : ℕ) (m : BusMessage E)
      → CountsUp n ms
      → last? (take (suc a) (visible_from before ms)) ≡ some m
      → (c : ℕ × ℕ) × (stream_position m.stream_id ≡ some c)
        × (after_cursor c ms ≡ drop (suc a) (visible_from before ms))
  unfolding visible_from
  replay_from none n ms a m counts h =
      let (k, at, low, cut) = after_cursor-last a n ms m counts h in ((0, k), at, cut)
  replay_from (some p) n ms a m counts h =
      let rest = after_cursor p ms in
      let (first_of_rest, starts) = last?-nonempty a rest m h in
      let follows : Follows p (first_of_rest.0 ∷ first_of_rest.1) =
        subst (Follows p) starts (after_cursor-Follows p n ms counts) in
      let (k, counted, behind) = follows in
      let (j, at, low, cut) =
        after_cursor-last a k (first_of_rest.0 ∷ first_of_rest.1) m counted
          (subst (λ l. last? (take (suc a) l) ≡ some m) starts h) in
      (
        (0, j),
        at,
        sym (after_cursor-again p (0, j) n ms counts (position_ltb_le p k j behind low))
            ∙ (subst (λ l. after_cursor (0, j) l ≡ drop (suc a) l) (sym starts) cut),
      )

module _ {E : Type 0} (fingerprint : E → Text) where
  publish-CountsUp :
      (event : E) (bus : Bus E)
      → CountsUp 1 bus.messages
      → CountsUp 1 (publish fingerprint event bus).1.messages
  unfolding publish append
  publish-CountsUp event bus c = elim (Option-cases (known_id (fingerprint event) bus.dedupe)) [
    | inl fresh ↦
        let id = local_id (length bus.messages + 1) in
        let same : append fingerprint event id bus ≡ (publish fingerprint event bus).1 =
          ground arith in
        subst (λ b. CountsUp 1 b.messages) same
          (CountsUp-snoc 1 bus.messages (record { stream_id = id; event = event }) c refl)
    | inr (id, known) ↦
        let same : bus ≡ (publish fingerprint event bus).1 = ground arith in
        subst (λ b. CountsUp 1 b.messages) same c
  ]

  publish_many-CountsUp :
      (events : List E) (bus : Bus E)
      → CountsUp 1 bus.messages
      → CountsUp 1 (publish_many fingerprint events bus).1.messages
  unfolding publish_many
  publish_many-CountsUp [] bus c = c
  publish_many-CountsUp (event ∷ events) bus c =
      publish_many-CountsUp events (publish fingerprint event bus).1 (publish-CountsUp event bus c)

  -- In a bus of published events, a replay behind the last message of another replay goes on exactly
  -- where that one ends: together they are one replay of both sizes.
  pub replays-join :
      (events : List E) (before : Option (ℕ × ℕ)) (a b : ℕ) (m : BusMessage E)
      → let bus = (publish_many fingerprint events (empty fingerprint)).1 in
        last? (replay before (suc a) bus) ≡ some m
        → (c : ℕ × ℕ) × (stream_position m.stream_id ≡ some c)
          × (replay before (suc a) bus ++ replay (some c) b bus ≡ replay before (suc a + b) bus)
  unfolding replay visible_from
  replays-join events before a b m last =
      let bus = (publish_many fingerprint events (empty fingerprint)).1 in
      let numbered = publish_many-CountsUp events (empty fingerprint) (unfold empty in tt) in
      let (c, at, cut) = replay_from before 1 bus.messages a m numbered last in
      let seen = visible_from before bus.messages in
      (c, at, ap (λ l. take (suc a) seen ++ take b l) cut ∙ take-append-take-drop (suc a) b seen)
