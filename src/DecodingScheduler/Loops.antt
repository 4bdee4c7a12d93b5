-- ===== src/DecodingScheduler/Loops.antt =====
-- distserve/decoding_stage_scheduler.py: the rules of the two loops of `get_next_batch`.
use recompute_or_migrate.Base.{
  ℕ, zero, suc, ◌≡◌, ap, subst, ◌∙◌, inl, inr, false, Bool-cases, Option-cases, ok, >>=-eq-ok,
  ok-injective, err≢ok,
}
use recompute_or_migrate.DecodingScheduler.{
  DecodingScheduler, is_over, swap_out_last, make_room, add_step, add_loop,
}
use recompute_or_migrate.DecodingScheduler.Rounds.{
  SwapsOut, AddsSwapped, AddsWaiting, swap_out_last-SwapsOut, add_step-adds,
}

-- The rule of the first loop: what a swap keeps, the loop keeps, and it ends with the requests within
-- the GPU.
pub make_room-keeps :
    (P : DecodingScheduler → Type 0)
    → ((s s' : DecodingScheduler) → SwapsOut s s' → P s → P s')
    → (n : ℕ) (s s' : DecodingScheduler) → make_room n s ≡ ok s'
    → P s
    → P s' × (is_over s' ≡ false)
unfolding make_room
make_room-keeps P keeps zero s s' e h = elim (Bool-cases (is_over s)) [
  | inl over ↦ absurd (err≢ok (rw over at e))
  | inr within ↦ subst (λ t. P t × (is_over t ≡ false)) (ok-injective (rw within at e)) (h, within)
]
make_room-keeps P keeps (suc n) s s' e h = elim (Bool-cases (is_over s)) [
  | inl over ↦
      let (s1, swapped, e1) = >>=-eq-ok (swap_out_last s) _ (rw over at e) in
      make_room-keeps P keeps n s1 s' e1 (keeps s s1 (swap_out_last-SwapsOut s s1 swapped) h)
  | inr within ↦ subst (λ t. P t × (is_over t ≡ false)) (ok-injective (rw within at e)) (h, within)
]

-- The rule of the second loop.
pub add_loop-keeps :
    (P : DecodingScheduler → Type 0)
    → ((s s' : DecodingScheduler) → AddsSwapped s s' → P s → P s')
    → ((s s' : DecodingScheduler) → AddsWaiting s s' → P s → P s')
    → (n : ℕ) (s s' : DecodingScheduler) → add_loop n s ≡ ok s'
    → P s
    → P s'
unfolding add_loop
add_loop-keeps P swapped waiting zero s s' e h = subst P (ok-injective e) h
add_loop-keeps P swapped waiting (suc n) s s' e h =
    let (found, stepped, e1) = >>=-eq-ok (add_step s) _ e in
    elim (Option-cases found) [
      | inl gone ↦ subst P (ok-injective (rw gone at e1)) h
      | inr (t, there) ↦
          add_loop-keeps P swapped waiting n t s' (rw there at e1)
            (elim (add_step-adds s t (stepped ∙ ap ok there)) [
              | inl adds ↦ swapped s t adds h
              | inr adds ↦ waiting s t adds h
            ])
    ]
