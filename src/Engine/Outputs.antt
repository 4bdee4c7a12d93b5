-- ===== src/Engine/Outputs.antt =====
-- distserve/engine.py: what the generator of a request yields, and the lengths of prompts that are noted.
use recompute_or_migrate.Base.{
  ◌&&◌, ℕ, ◌≡◌, refl, sym, ap, subst, ◌∙◌, inl, inr, Bool, true, false, List, [], ◌∷◌, ◌++◌,
  append-nil, append_assoc, ◌==◌, if◌then◌else◌, ==_refl, Bool-cases, if_true, All, insert,
  lookup-insert, ok, >>=-ok,
}
use recompute_or_migrate.Engine.{StepOutput, LlmEngine, yield_from}
use recompute_or_migrate.Engine.Turns.{
  Turn, delivers, asks, delivered, follow, Waits, Known, deliver_waiting, deliver_total,
  deliver-Known, insert-Known-engine, yield_first, next_output_lem,
}

-- One delivery more, and the deliveries after it.
delivered-cons :
    (k : ℕ) (o : StepOutput) (turns : List Turn) (outputs : List StepOutput)
    → (outputs ++ (if o.request_id == k then o ∷ [] else [])) ++ delivered k turns
      ≡ outputs ++ delivered k (delivers o ∷ turns)
delivered-cons k o turns outputs = elim (Bool-cases (o.request_id == k)) [
  | inl t ↦ rw (t, append_assoc outputs (o ∷ []) (delivered k turns)) refl
  | inr t ↦ rw (t, append-nil outputs) refl
]

All-append_one :
    (b : Bool) (o : StepOutput) (outputs : List StepOutput)
    → (b && o.is_finished) ≡ false
    → All (λ p. p.is_finished ≡ false) outputs
    → All (λ p. p.is_finished ≡ false) (outputs ++ (if b then o ∷ [] else []))
All-append_one true o [] h hs = (h, tt)
All-append_one false o [] h hs = tt
All-append_one b o (p ∷ outputs) h hs = (hs.0, All-append_one b o outputs h hs.1)

module _ {Number : Type 0} where
  -- A turn in which no output of the request `k` says that it is finished, and an output goes to a request
  -- that the engine knows.
  abbrev pub GoesOn : ℕ → LlmEngine Number → Turn → Type 0
  GoesOn k s (delivers o) = Known s o.request_id × ((o.request_id == k && o.is_finished) ≡ false)
  GoesOn k s asks = Unit

  -- What has been yielded is a front of what was delivered, and the rest waits.
  pub record InOrder (k : ℕ) (given yielded : List StepOutput) (s : LlmEngine Number) : Type 0 where
    pub rest : List StepOutput
    pub order : yielded ++ rest ≡ given
    pub waits : Waits k s rest

  All-GoesOn :
      (k : ℕ) (s t : LlmEngine Number) (turns : List Turn)
      → ((j : ℕ) → Known s j → Known t j)
      → All (GoesOn k s) turns
      → All (GoesOn k t) turns
  All-GoesOn k s t [] keeps goes = tt
  All-GoesOn k s t (delivers o ∷ turns) keeps goes =
      ((keeps o.request_id goes.0.0, goes.0.1), All-GoesOn k s t turns keeps goes.1)
  All-GoesOn k s t (asks ∷ turns) keeps goes = (tt, All-GoesOn k s t turns keeps goes.1)

  follow-InOrder :
      (k : ℕ) (turns : List Turn) (s : LlmEngine Number) (outputs : List StepOutput)
      → Waits k s outputs
      → All (λ o. o.is_finished ≡ false) outputs
      → All (GoesOn k s) turns
      → (yielded : List StepOutput) × (t : LlmEngine Number) × (follow k turns s ≡ ok (yielded, t))
        × InOrder k (outputs ++ delivered k turns) yielded t
  unfolding follow yield_from
  follow-InOrder k [] s outputs w open_ones goes =
      ([], s, refl, record { rest = outputs; order = sym (append-nil outputs); waits = w })
  follow-InOrder k (delivers o ∷ turns) s outputs w open_ones goes =
      let ((known, unfinished), later) = goes in
      let (u, e) = deliver_total o s known in
      let (yielded, t, f, order) =
        follow-InOrder k turns u (outputs ++ (if o.request_id == k then o ∷ [] else []))
          (deliver_waiting k o s u outputs w e)
          (All-append_one (o.request_id == k) o outputs unfinished open_ones)
          (All-GoesOn k s u turns (λ j. deliver-Known o s u j e) later) in
      (
        yielded,
        t,
        >>=-ok _ e ∙ f,
        subst (λ (given : List StepOutput). InOrder k given yielded t)
            (delivered-cons k o turns outputs) order,
      )
  follow-InOrder k (asks ∷ turns) s [] w open_ones goes =
      let (yielded, t, f, order) = follow-InOrder k turns s [] w tt goes.1 in
      (yielded, t, >>=-ok _ (next_output_lem k s [] w) ∙ >>=-ok _ f, order)
  follow-InOrder k (asks ∷ turns) s (o ∷ outputs) w open_ones goes =
      let u : LlmEngine Number = record s {
        request_outputs = insert k outputs s.request_outputs;
      } in
      let waits : Waits k u outputs =
        lookup-insert k k outputs s.request_outputs ∙ if_true _ _ _ (==_refl k) in
      let (yielded, t, f, order) =
        follow-InOrder k turns u outputs waits open_ones.1
          (All-GoesOn k s u turns (λ j. insert-Known-engine k j outputs s) goes.1) in
      (
        o ∷ yielded,
        t,
        >>=-ok _
              (next_output_lem k s (o ∷ outputs) w ∙ ap ok (yield_first k o outputs s open_ones.0))
            ∙ >>=-ok _ f,
        record {
          rest = order.rest;
          order = ap (λ (l : List StepOutput). o ∷ l) order.order;
          waits = order.waits;
        },
      )

  -- The stages deliver outputs of any requests that the engine knows, and the generator of one request asks
  -- for its outputs, in any order. Until an output says that this request is finished, nothing is raised,
  -- the generator yields the outputs of its request in the order of their delivery, each once, and no
  -- other, and those that it has not yielded are kept for it, in that order.
  pub follow_lem :
      (k : ℕ) (turns : List Turn) (s : LlmEngine Number)
      → Waits k s []
      → All (GoesOn k s) turns
      → (yielded : List StepOutput) × (t : LlmEngine Number) × (follow k turns s ≡ ok (yielded, t))
        × InOrder k (delivered k turns) yielded t
  follow_lem k turns s w goes = follow-InOrder k turns s [] w tt goes
