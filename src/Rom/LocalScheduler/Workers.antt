-- ===== src/Rom/LocalScheduler/Workers.antt =====
-- distserve/rom_local_scheduler.py: the worker that `get_best_decode_worker` picks.
use recompute_or_migrate.Base.{
  ℕ, ◌≤◌, ◌≡◌, refl, sym, ap, subst, ◌∙◌, ◌≢◌, ◌↔◌, ◌⊎◌, inl, inr, Bool, true, false, Option, none,
  some, List, [], ◌∷◌, arith, ltb, ◌==◌, if◌then◌else◌, Bool-cases, Dict, lookup, Distinct,
  some-injective, none≢some, list-cases,
}
use recompute_or_migrate.Floats.{Floats}
use recompute_or_migrate.Rom.LocalScheduler.{
  LocalScheduler, mem, candidates, least, pick, excluded_of, get_best_decode_worker,
}

-- A worker that is registered and not excluded, and its depth.
abbrev pub Eligible : List ℕ → Dict ℕ → ℕ → ℕ → Type 0
Eligible exclude d w q = (lookup w d ≡ some q) × (mem w exclude ≡ false)

candidates-lookup :
    (exclude : List ℕ) (d : Dict ℕ) (w : ℕ)
    → lookup w (candidates exclude d) ≡ (if mem w exclude then none else lookup w d)
unfolding candidates lookup
candidates-lookup exclude [] w = ground arith
candidates-lookup exclude ((v, p) ∷ d) w = elim (Bool-cases (v == w)) [
  | inl same ↦
      let e : v ≡ w = ground (arith, same) in
      elim (Bool-cases (mem w exclude)) [
        | inl out ↦ ground (arith, candidates-lookup exclude d w, ap (λ x. mem x exclude) e, out)
        | inr kept ↦ ground (arith, candidates-lookup exclude d w, ap (λ x. mem x exclude) e, kept)
      ]
  | inr other ↦ ground (arith, candidates-lookup exclude d w, other)
]

candidates-Distinct : (exclude : List ℕ) (d : Dict ℕ) → Distinct d → Distinct (candidates exclude d)
unfolding candidates
candidates-Distinct exclude [] h = tt
candidates-Distinct exclude ((v, p) ∷ d) h =
    ground (arith, candidates-Distinct exclude d h.1, candidates-lookup exclude d v)

lookup_past :
    (k w q m : ℕ) (d : Dict ℕ)
    → lookup w d ≡ none
    → lookup k d ≡ some m
    → lookup k ((w, q) ∷ d) ≡ some m
unfolding lookup
lookup_past k w q m d absent there = elim (Bool-cases (w == k)) [
  | inl same ↦
      let e : w ≡ k = ground (arith, same) in
      absurd (none≢some (sym absent ∙ ap (λ x. lookup x d) e ∙ there))
  | inr other ↦ ground (arith, other, there)
]

lookup_second :
    (k w q v p m : ℕ) (d : Dict ℕ)
    → lookup w ((v, p) ∷ d) ≡ none
    → lookup v d ≡ none
    → lookup k ((w, q) ∷ d) ≡ some m
    → lookup k ((w, q) ∷ (v, p) ∷ d) ≡ some m
unfolding lookup
lookup_second k w q v p m d absent_w absent_v there = elim (Bool-cases (w == k)) [
  | inl same ↦ ground (arith, same, there)
  | inr other ↦
      let rest : lookup k d ≡ some m = ground (arith, other, there) in
      ground (arith, lookup_past k v p m d absent_v rest, other)
]

tail_absent : (w v p : ℕ) (d : Dict ℕ) → lookup w ((v, p) ∷ d) ≡ none → lookup w d ≡ none
unfolding lookup
tail_absent w v p d h = ground arith

least_less : (w q v p : ℕ) (d : Dict ℕ) → ltb p q ≡ true → least w q ((v, p) ∷ d) ≡ least v p d
unfolding least
least_less w q v p d h = rw h

least_more : (w q v p : ℕ) (d : Dict ℕ) → ltb p q ≡ false → least w q ((v, p) ∷ d) ≡ least w q d
unfolding least
least_more w q v p d h = rw h

all_of :
    (m v p : ℕ) (d : Dict ℕ)
    → m ≤ p
    → ((u r : ℕ) → lookup u d ≡ some r → m ≤ r)
    → (u r : ℕ) → lookup u ((v, p) ∷ d) ≡ some r
    → m ≤ r
unfolding lookup
all_of m v p d small all u r e = ground (arith, all u r)

-- What `least` yields is a key, and no value is less than its value.
least_lem :
    (w q : ℕ) (d : Dict ℕ)
    → lookup w d ≡ none
    → Distinct d
    → (p : ℕ) × (lookup (least w q d) ((w, q) ∷ d) ≡ some p)
      × (p ≤ q)
      × ((v r : ℕ) → lookup v d ≡ some r → p ≤ r)
unfolding least lookup
least_lem w q [] absent h = (q, ground arith, omega arith, λ v r e. cc)
least_lem w q ((v, p) ∷ d) absent h = elim (Bool-cases (ltb p q)) [
  | inl less ↦
      let (m, there, small, all) = least_lem v p d h.0 h.1 in
      (
        m,
        ap (λ k. lookup k ((w, q) ∷ (v, p) ∷ d)) (least_less w q v p d less)
            ∙ lookup_past (least v p d) w q m ((v, p) ∷ d) absent there,
        ground (arith, small, less),
        all_of m v p d small all,
      )
  | inr more ↦
      let (m, there, small, all) = least_lem w q d (tail_absent w v p d absent) h.1 in
      (
        m,
        ap (λ k. lookup k ((w, q) ∷ (v, p) ∷ d)) (least_more w q v p d more)
            ∙ lookup_second (least w q d) w q v p m d absent h.0 there,
        small,
        all_of m v p d (ground (arith, small, more)) all,
      )
]

-- The worker picked is registered and not excluded, and no such worker has a shorter queue.
pub record Best (exclude : List ℕ) (d : Dict ℕ) (w : ℕ) : Type 0 where
  pub depth : ℕ
  pub eligible : Eligible exclude d w depth
  pub shortest : (v r : ℕ) → Eligible exclude d v r → depth ≤ r

if_eq-some :
    (t : Bool) (o : Option ℕ) (m : ℕ)
    → (if t then none else o) ≡ some m
    → (o ≡ some m) × (t ≡ false)
if_eq-some true o m h = cc
if_eq-some false o m h = (h, refl)

candidates-Best :
    (exclude : List ℕ) (d : Dict ℕ) (w q : ℕ) (c : Dict ℕ)
    → Distinct d
    → candidates exclude d ≡ (w, q) ∷ c
    → Best exclude d (least w q c)
unfolding lookup
candidates-Best exclude d w q c h e =
    let distinct : Distinct ((w, q) ∷ c) = subst Distinct e (candidates-Distinct exclude d h) in
    let (m, there, small, all) = least_lem w q c distinct.0 distinct.1 in
    record {
      depth = m;
      eligible =
          if_eq-some (mem (least w q c) exclude) _ m
            (sym (candidates-lookup exclude d (least w q c)) ∙ ap (lookup (least w q c)) e ∙ there);
      shortest = λ v r (found, kept).
          all_of m w q c small all v r
            (sym (ap (lookup v) e) ∙ candidates-lookup exclude d v ∙ ground (arith, found, kept));
    }

nobody_left :
    (exclude : List ℕ) (d : Dict ℕ) (w : ℕ)
    → candidates exclude d ≡ []
    → (lookup w d ≡ none) ⊎ (mem w exclude ≡ true)
unfolding lookup
nobody_left exclude d w e = elim (Bool-cases (mem w exclude)) [
  | inl out ↦ inr out
  | inr kept ↦
      let gone = sym (candidates-lookup exclude d w) ∙ ap (lookup w) e ∙ lookup_nil w in
      inl (ground (arith, gone, kept))
]
  where
    lookup_nil : (v : ℕ) → lookup {V = ℕ} v [] ≡ none
    lookup_nil v = refl

true≢false : true ≢ false
true≢false h = cc

somebody_left :
    (exclude : List ℕ) (d : Dict ℕ) (w q : ℕ) (c : Dict ℕ)
    → candidates exclude d ≡ (w, q) ∷ c
    → (lookup w d ≡ some q) × (mem w exclude ≡ false)
unfolding lookup
somebody_left exclude d w q c e =
    if_eq-some (mem w exclude) _ q
      (sym (candidates-lookup exclude d w) ∙ ap (lookup w) e ∙ lookup_head w)
  where
    lookup_head : (v : ℕ) → lookup v ((v, q) ∷ c) ≡ some q
    lookup_head v = ground arith

module _ (F : Floats) where
  -- Over a dict of workers with distinct ids, the worker that is picked is registered and not excluded, and
  -- no other such worker has a shorter queue.
  pub get_best_decode_worker-Best :
      (s : LocalScheduler F) (exclude : Option (List ℕ)) (w : ℕ)
      → Distinct s.queue_lengths
      → get_best_decode_worker F s exclude ≡ some w
      → Best (excluded_of exclude) s.queue_lengths w
  unfolding get_best_decode_worker
  get_best_decode_worker-Best s exclude w h e =
      elim (list-cases (candidates (excluded_of exclude) s.queue_lengths)) [
        | inl nobody ↦ absurd (none≢some (sym (ap pick nobody) ∙ e))
        | inr ((v, q), c, some_) ↦
            subst (Best (excluded_of exclude) s.queue_lengths)
              (some-injective (sym (ap pick some_) ∙ e))
              (candidates-Best (excluded_of exclude) s.queue_lengths v q c h some_)
      ]

  -- No worker is picked exactly if there is none that is registered and not excluded.
  pub get_best_decode_worker-none_iff :
      (s : LocalScheduler F) (exclude : Option (List ℕ))
      → (get_best_decode_worker F s exclude ≡ none)
        ↔ ((w : ℕ) → lookup w s.queue_lengths ≡ none ⊎ (mem w (excluded_of exclude) ≡ true))
  unfolding get_best_decode_worker
  get_best_decode_worker-none_iff s exclude = (
    λ e w. elim (list-cases (candidates (excluded_of exclude) s.queue_lengths)) [
      | inl nobody ↦ nobody_left (excluded_of exclude) s.queue_lengths w nobody
      | inr ((v, q), c, some_) ↦ absurd (none≢some (sym e ∙ ap pick some_))
    ],
    λ all. elim (list-cases (candidates (excluded_of exclude) s.queue_lengths)) [
      | inl nobody ↦ ap pick nobody
      | inr ((v, q), c, some_) ↦
          let (found, kept) = somebody_left (excluded_of exclude) s.queue_lengths v q c some_ in
          elim (all v) [
            | inl gone ↦ absurd (none≢some (sym gone ∙ found))
            | inr out ↦ absurd (true≢false (sym out ∙ kept))
          ]
    ],
  )
