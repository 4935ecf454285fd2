-- ===== src/PollHistory/Descending.antt =====
-- Transitions whose ids count down pass the checks that a page makes of its order.
use atlas_pulse.Prelude.{
  ℕ, zero, suc, ◌-◌, ◌≤◌, ◌<◌, ◌≡◌, Bool, true, false, not, some, List, [], ◌∷◌, take, keep, unique,
  contains, sorted, sort_insert, nat_eq, arith, refl, if_ind, ==_refl, ==→eq,
}
use atlas_pulse.StreamId.{position_ltb, local_id, stream_position-local_id}
use atlas_pulse.Polling.Types.{SourcePollTransition}
use atlas_pulse.PollStore.Pages.{CountsDown}
use atlas_pulse.PollHistory.{
  positions, oldest_cursor, is_newest_first, is_cursor, position_eq, positions_eq,
}

-- The ids are those of the store, below a bound and falling.
abbrev pub Falls : ℕ → List SourcePollTransition → Type 0
Falls bound [] = Unit
Falls bound (t ∷ ts) = (n : ℕ) × (t.stream_id ≡ local_id n) × (n < bound) × Falls n ts

pub CountsDown-Falls :
    (n bound : ℕ) (ts : List SourcePollTransition) → CountsDown n ts → n < bound → Falls bound ts
CountsDown-Falls n bound [] c h = tt
CountsDown-Falls n bound (t ∷ ts) (e, pos, c) h =
    (n, e, h, CountsDown-Falls (n - 1) n ts c (omega arith))

Falls-le : (a b : ℕ) (ts : List SourcePollTransition) → Falls a ts → a ≤ b → Falls b ts
Falls-le a b [] f h = tt
Falls-le a b (t ∷ ts) (n, e, below, f) h = (n, e, omega arith, f)

pub Falls-keep :
    (p : SourcePollTransition → Bool) (bound : ℕ) (ts : List SourcePollTransition)
    → Falls bound ts
    → Falls bound (keep p ts)
Falls-keep p bound [] f = tt
Falls-keep p bound (t ∷ ts) (n, e, below, f) =
    if_ind (Falls bound) (p t) (λ kept. (n, e, below, Falls-keep p n ts f))
      (λ dropped. Falls-le n bound (keep p ts) (Falls-keep p n ts f) (omega arith))

pub Falls-take :
    (k bound : ℕ) (ts : List SourcePollTransition) → Falls bound ts → Falls bound (take k ts)
Falls-take zero bound ts f = tt
Falls-take (suc k) bound [] f = tt
Falls-take (suc k) bound (t ∷ ts) (n, e, below, f) = (n, e, below, Falls-take k n ts f)

-- Positions `(0, n)` below a bound and falling.
abbrev pub FallingPositions : ℕ → List (ℕ × ℕ) → Type 0
FallingPositions bound [] = Unit
FallingPositions bound (p ∷ ps) = (p.0 ≡ 0) × (p.1 < bound) × FallingPositions p.1 ps

pub positions-Falls :
    (bound : ℕ) (ts : List SourcePollTransition)
    → Falls bound ts
    → (ps : List (ℕ × ℕ)) × (positions ts ≡ some ps) × FallingPositions bound ps
unfolding positions
positions-Falls bound [] f = ([], refl, tt)
positions-Falls bound (t ∷ ts) (n, e, below, f) =
    let (ps, read, falling) = positions-Falls n ts f in
    ((0, n) ∷ ps, ground (arith, stream_position-local_id n), (refl, below, falling))

not_contained :
    (n bound : ℕ) (ps : List (ℕ × ℕ))
    → FallingPositions bound ps
    → bound ≤ n
    → contains (0, n) ps ≡ false
not_contained n bound [] f h = refl
not_contained n bound (p ∷ ps) (major, below, f) h =
    ground (arith, not_contained n p.1 ps f (omega arith), ==→eq p (0, n))

pub unique-falling : (bound : ℕ) (ps : List (ℕ × ℕ)) → FallingPositions bound ps → unique ps ≡ true
unique-falling bound [] f = refl
unique-falling bound (p ∷ ps) (major, below, f) =
    let fresh : contains p ps ≡ false = ground (arith, not_contained p.1 p.1 ps f (omega arith)) in
    ground (arith, fresh, unique-falling p.1 ps f)

sorted-falling :
    (bound : ℕ) (ps : List (ℕ × ℕ))
    → FallingPositions bound ps
    → sorted (λ p q. not (position_ltb p q)) ps ≡ ps
unfolding sorted sort_insert position_ltb
sorted-falling bound [] f = refl
sorted-falling bound (p ∷ []) f = refl
sorted-falling bound (p ∷ q ∷ ps) (major, below, (major_q, below_q, f)) =
    let later : position_ltb p q ≡ false = ground arith in
    rw (sorted-falling p.1 (q ∷ ps) (major_q, below_q, f)) (rw later refl)

pub is_newest_first-falling :
    (bound : ℕ) (ps : List (ℕ × ℕ)) → FallingPositions bound ps → is_newest_first ps ≡ true
unfolding is_newest_first
is_newest_first-falling bound ps f = rw (sorted-falling bound ps f) (==_refl ps)

-- The cursor of such a page is a stream id.
pub is_cursor-oldest :
    (bound : ℕ) (ts : List SourcePollTransition)
    → Falls bound ts
    → is_cursor (oldest_cursor ts) ≡ true
unfolding is_cursor oldest_cursor
is_cursor-oldest bound [] f = refl
is_cursor-oldest bound (t ∷ []) (n, e, below, f) = ground (arith, stream_position-local_id n)
is_cursor-oldest bound (t ∷ u ∷ ts) (n, e, below, f) = is_cursor-oldest n (u ∷ ts) f
