-- ===== src/Rom/LocalScheduler/Bandwidth.antt =====
-- distserve/rom_local_scheduler.py: the history of the bandwidths is a window on the samples.
use recompute_or_migrate.Base.{
  ℕ, zero, suc, ◌+◌, ◌-◌, ◌≤◌, ◌<◌, ◌≡◌, refl, sym, ap, ◌∙◌, inl, inr, not, List, [], ◌∷◌, ◌++◌,
  map, append-nil, append_assoc, arith, ltb, ltb→lt, Bool-cases, if_true, if_false, length, drop,
  keep, length-append, length-drop,
}
use recompute_or_migrate.Floats.{Floats, of_ℕ}
use recompute_or_migrate.Rom.Config.{RomConfig}
use recompute_or_migrate.Rom.LocalScheduler.{
  LocalScheduler, new_scheduler, push_history, update_bandwidth,
}

module _ {A : Type 0} where
  abbrev pub last_of : ℕ → List A → List A
  last_of n xs = drop (length xs - n) xs

  drop-append : (n : ℕ) (xs ys : List A) → n ≤ length xs → drop n (xs ++ ys) ≡ drop n xs ++ ys
  drop-append zero xs ys h = refl
  drop-append (suc n) [] ys h = ground arith
  drop-append (suc n) (x ∷ xs) ys h = drop-append n xs ys (omega (arith, h))

  drop_one : (n : ℕ) (xs : List A) → drop 1 (drop n xs) ≡ drop (suc n) xs
  drop_one zero xs = refl
  drop_one (suc n) [] = refl
  drop_one (suc n) (x ∷ xs) = drop_one n xs

module _ (F : Floats) where
  -- The samples that are taken up, and the calls one after another.
  abbrev pub positive_samples : List (F.Carrier × F.Carrier) → List F.Carrier
  positive_samples ms = keep (λ m. not (F.leq m (of_ℕ F 0))) (map (λ m. m.0) ms)

  abbrev pub update_all : LocalScheduler F → List (F.Carrier × F.Carrier) → LocalScheduler F
  update_all s [] = s
  update_all s ((m, now) ∷ ms) = update_all (update_bandwidth F s m now) ms

  push_history-last_of :
      (n : ℕ) (xs : List F.Carrier) (x : F.Carrier)
      → push_history F n (last_of n xs) x ≡ last_of n (xs ++ x ∷ [])
  unfolding push_history
  push_history-last_of n xs x =
      let size : length (drop (length xs - n) xs ++ x ∷ []) ≡ length xs - (length xs - n) + 1 =
        omega (
          arith,
          length-append {0} (drop (length xs - n) xs) (x ∷ []),
          length-drop {0} (length xs - n) xs,
        ) in
      let grown : length (xs ++ x ∷ []) ≡ length xs + 1 = length-append {0} xs (x ∷ []) in
      elim (Bool-cases (ltb (length xs) n)) [
        | inl short ↦
            let less : length xs < n = ltb→lt _ _ short in
            if_false (ltb n (length (last_of n xs ++ x ∷ []))) _ _ (ground (arith, size, less))
            ∙ ap (λ i. drop i xs ++ x ∷ []) (zero_of (length xs - n) (omega (arith, less)))
            ∙ ap (λ i. drop i (xs ++ x ∷ []))
                (sym (zero_of (length (xs ++ x ∷ []) - n) (omega (arith, grown, less))))
        | inr full ↦
            let more : n ≤ length xs = ground (arith, full) in
            if_true (ltb n (length (last_of n xs ++ x ∷ []))) _ _ (ground (arith, size, more))
            ∙ ap (drop 1) (sym (drop-append (length xs - n) xs (x ∷ []) (omega arith)))
            ∙ drop_one (length xs - n) (xs ++ x ∷ [])
            ∙ ap (λ i. drop i (xs ++ x ∷ []))
                (same_of (suc (length xs - n)) (length (xs ++ x ∷ []) - n)
                  (omega (arith, grown, more)))
      ]
    where
      zero_of : (i : ℕ) → i ≤ 0 → i ≡ 0
      zero_of i h = omega (arith, h)

      same_of : (i j : ℕ) → (i ≤ j) × (j ≤ i) → i ≡ j
      same_of i j h = omega (arith, h)

  -- The state once a positive sample is taken up.
  abbrev taken_up : LocalScheduler F → (bandwidth now : F.Carrier) → LocalScheduler F
  taken_up s m now = record s {
    bandwidth_mbps =
        F.add (F.mul s.bw_alpha m) (F.mul (F.sub (of_ℕ F 1) s.bw_alpha) s.bandwidth_mbps);
    last_bw_update = now;
    bw_history = push_history F s.bw_history_max s.bw_history m;
  }

  update_all-window :
      (n : ℕ) (s : LocalScheduler F) (before : List F.Carrier) (ms : List (F.Carrier × F.Carrier))
      → s.bw_history_max ≡ n
      → s.bw_history ≡ last_of n before
      → (update_all s ms).bw_history ≡ last_of n (before ++ positive_samples ms)
  unfolding update_bandwidth
  update_all-window n s before [] limit window =
      window ∙ ap (λ l. last_of n l) (sym (append-nil before))
  update_all-window n s before ((m, now) ∷ ms) limit window =
      elim (Bool-cases (F.leq m (of_ℕ F 0))) [
        | inl down ↦
            ap (λ u. (update_all u ms).bw_history) (if_true _ _ _ down)
            ∙ update_all-window n s before ms limit window
            ∙ ap (λ l. last_of n (before ++ l)) (sym (if_false _ _ _ (ap not down)))
        | inr up ↦
            ap (λ u. (update_all u ms).bw_history) (if_false _ _ _ up)
            ∙ update_all-window n (taken_up s m now) (before ++ m ∷ []) ms limit (
                ap (λ i. push_history F i s.bw_history m) limit
                ∙ ap (λ h. push_history F n h m) window
                ∙ push_history-last_of n before m)
            ∙ ap (last_of n) (append_assoc before (m ∷ []) (positive_samples ms))
            ∙ ap (λ l. last_of n (before ++ l)) (sym (if_true _ _ _ (ap not up)))
      ]

  -- The history of an actor is the last 100 of the positive samples that it was given, in their order.
  pub update_all-history :
      (c : RomConfig F) (ms : List (F.Carrier × F.Carrier))
      → (update_all (new_scheduler F c) ms).bw_history ≡ last_of 100 (positive_samples ms)
  unfolding new_scheduler
  update_all-history c ms = update_all-window 100 (new_scheduler F c) [] ms refl refl
