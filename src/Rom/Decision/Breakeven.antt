-- ===== src/Rom/Decision/Breakeven.antt =====
-- distserve/rom_decision.py: what `breakeven_prompt_len` finds in the table.
use recompute_or_migrate.Base.{
  ℕ, ◌≡◌, sym, ap, subst, ◌⊎◌, inl, inr, Bool, true, false, List, [], ◌∷◌, ◌++◌, map, Bool-cases,
  All, pos, ok, >>=-eq-ok, ok-injective,
}
use recompute_or_migrate.Floats.{Floats}
use recompute_or_migrate.Rom.Config.{RomConfig}
use recompute_or_migrate.Rom.Decision.{
  Decision, sorted, make_decision, first_breakeven, breakeven_prompt_len, max_size,
}

module _ (F : Floats) where
  -- For a prompt of this length the recomputation costs no more than the migration, or more.
  pub record Compared (bandwidth : F.Carrier) (c : RomConfig F) (cheap : Bool) (k : ℕ)
      : Type 0 where
    pub decision : Decision
    pub c_mig : F.Carrier
    pub c_recomp : F.Carrier
    pub made : make_decision F (pos k) bandwidth c ≡ ok (decision, c_mig, c_recomp)
    pub compared : F.leq c_recomp c_mig ≡ cheap

  -- What the search over a list of lengths yields.
  abbrev pub Searched : F.Carrier → RomConfig F → List ℕ → ℕ → Type 0
  Searched bandwidth c ks k =
      ((front : List ℕ) × (back : List ℕ) × (ks ≡ front ++ k ∷ back)
        × All (Compared bandwidth c false) front
        × Compared bandwidth c true k)
      ⊎ ((k ≡ max_size F) × All (Compared bandwidth c false) ks)

  first_breakeven-Searched :
      (bandwidth : F.Carrier) (c : RomConfig F) (ks : List ℕ) (k : ℕ)
      → first_breakeven F bandwidth c ks ≡ ok k
      → Searched bandwidth c ks k
  unfolding first_breakeven
  first_breakeven-Searched bandwidth c [] k e = inr (sym (ok-injective e), tt)
  first_breakeven-Searched bandwidth c (j ∷ ks) k e =
      let ((d, m, r), made, e1) = >>=-eq-ok (make_decision F (pos j) bandwidth c) _ e in
      elim (Bool-cases (F.leq r m)) [
        | inl yes_ ↦ inl (
          [],
          ks,
          ap (λ i. i ∷ ks) (ok-injective (rw yes_ at e1)),
          tt,
          subst (Compared bandwidth c true) (ok-injective (rw yes_ at e1))
              (record { decision = d; c_mig = m; c_recomp = r; made = made; compared = yes_ }),
        )
        | inr no_ ↦
            let here : Compared bandwidth c false j = record {
              decision = d;
              c_mig = m;
              c_recomp = r;
              made = made;
              compared = no_;
            } in
            elim (first_breakeven-Searched bandwidth c ks k (rw no_ at e1)) [
              | inl (front, back, split, dear, cheap) ↦
                  inl (j ∷ front, back, ap (λ l. j ∷ l) split, (here, dear), cheap)
              | inr (last, dear) ↦ inr (last, (here, dear))
            ]
      ]

  -- The length found is the first of the table, in ascending order, for which the recomputation costs no
  -- more than the migration: for all before it the recomputation costs more. With no such length in the table
  -- the result is `sys.maxsize`.
  pub breakeven_prompt_len_lem :
      (bandwidth : F.Carrier) (c : RomConfig F) (k : ℕ)
      → breakeven_prompt_len F bandwidth c ≡ ok k
      → Searched bandwidth c (map (λ p. p.0) (sorted c.prefill_time_table)) k
  unfolding breakeven_prompt_len
  breakeven_prompt_len_lem bandwidth c k e = first_breakeven-Searched bandwidth c _ k e
