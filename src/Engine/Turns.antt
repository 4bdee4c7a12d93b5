-- ===== src/Engine/Turns.antt =====
-- distserve/engine.py: the deliveries of the stages and the generator of a request, turn by turn.
use mathlib.Core.Bool.{true≢false}
use recompute_or_migrate.Base.{
  if_true, true, Option, is_some, Option-cases, Dict, ℕ, ◌≡◌, refl, sym, ap, subst, ◌∙◌, inl, inr,
  false, some, List, [], ◌∷◌, ◌++◌, append-nil, ◌==◌, if◌then◌else◌, ==_iff, Bool-cases, if_false,
  lookup, insert, lookup-insert, key_error, Result, ok, ◌>>=◌, or_raise, >>=-eq-ok, >>=-ok,
  ok-injective, some-injective, or_raise-eq-ok,
}
use recompute_or_migrate.Engine.{StepOutput, LlmEngine, on_new_step_output, yield_from, next_output}

-- A stage delivers an output of some request, or the generator of a request asks for one.
pub data Turn : Type 0 where
  delivers : StepOutput → Turn
  asks : Turn

-- The outputs of a request, in a series of turns.
abbrev pub delivered : ℕ → List Turn → List StepOutput
delivered k [] = []
delivered k (delivers o ∷ turns) =
    if o.request_id == k then o ∷ delivered k turns else delivered k turns
delivered k (asks ∷ turns) = delivered k turns

-- What is known stays known.
insert-Known :
    (i j : ℕ) (queue : List StepOutput) (outputs : Dict (List StepOutput))
    → is_some (lookup j outputs) ≡ true
    → is_some (lookup j (insert i queue outputs)) ≡ true
insert-Known i j queue outputs h = elim (Bool-cases (i == j)) [
  | inl same ↦ ap is_some (lookup-insert i j queue outputs ∙ if_true _ _ _ same)
  | inr apart ↦ ap is_some (lookup-insert i j queue outputs ∙ if_false _ _ _ apart) ∙ h
]

module _ {Number : Type 0} where
  -- What the generator of a request yields over some turns.
  unfoldable pub follow :
      ℕ → List Turn → LlmEngine Number → Result (List StepOutput × LlmEngine Number)
  unfolding on_new_step_output next_output
  follow k [] s = ok ([], s)
  follow k (delivers o ∷ turns) s = do s' ← on_new_step_output o s; follow k turns s'
  follow k (asks ∷ turns) s = do
    step ← next_output k s
    rest ← follow k turns step.1
    ok (step.0 ++ rest.0, rest.1)

  -- The generator has not ended, and some outputs wait.
  abbrev pub Waits : ℕ → LlmEngine Number → List StepOutput → Type 0
  Waits k s outputs = lookup k s.request_outputs ≡ some outputs

  -- The engine keeps outputs of a request.
  abbrev pub Known : LlmEngine Number → ℕ → Type 0
  Known s j = is_some (lookup j s.request_outputs) ≡ true

  -- A delivery goes to the end of the outputs of its request.
  delivery :
      (o : StepOutput) (s t : LlmEngine Number)
      → on_new_step_output o s ≡ ok t
      → (queue : List StepOutput) × (lookup o.request_id s.request_outputs ≡ some queue)
        × (t.request_outputs ≡ insert o.request_id (queue ++ o ∷ []) s.request_outputs)
  unfolding on_new_step_output
  delivery o s t e =
      let (queue, found, done) =
        >>=-eq-ok (or_raise (lookup o.request_id s.request_outputs) key_error) _ e in
      (
        queue,
        or_raise-eq-ok (lookup o.request_id s.request_outputs) key_error found,
        ap (λ (u : LlmEngine Number). u.request_outputs) (sym (ok-injective done)),
      )

  pub deliver_waiting :
      (k : ℕ) (o : StepOutput) (s t : LlmEngine Number) (outputs : List StepOutput)
      → Waits k s outputs
      → on_new_step_output o s ≡ ok t
      → Waits k t (outputs ++ (if o.request_id == k then o ∷ [] else []))
  deliver_waiting k o s t outputs w e =
      let (queue, found, now) = delivery o s t e in
      elim (Bool-cases (o.request_id == k)) [
        | inl same ↦
            let id : o.request_id ≡ k = (==_iff o.request_id k).0 same in
            let q : queue ≡ outputs =
              some-injective (sym found ∙ ap (λ (j : ℕ). lookup j s.request_outputs) id ∙ w) in
            rw (same, now, lookup-insert o.request_id k (queue ++ o ∷ []) s.request_outputs, same)
              (ap (λ (l : List StepOutput). some (l ++ o ∷ [])) q)
        | inr apart ↦
            rw
              (
                apart,
                now,
                lookup-insert o.request_id k (queue ++ o ∷ []) s.request_outputs,
                apart,
                append-nil outputs,
              )
              w
      ]

  -- A delivery to a request that is known raises nothing.
  pub deliver_total :
      (o : StepOutput) (s : LlmEngine Number)
      → Known s o.request_id
      → (t : LlmEngine Number) × (on_new_step_output o s ≡ ok t)
  unfolding on_new_step_output
  deliver_total o s known = elim (Option-cases (lookup o.request_id s.request_outputs)) [
    | inl absent ↦ absurd (true≢false (sym known ∙ ap is_some absent))
    | inr (queue, found) ↦
        (_, >>=-ok _ (ap (λ (q : Option (List StepOutput)). or_raise q key_error) found))
  ]

  pub deliver-Known :
      (o : StepOutput) (s t : LlmEngine Number) (j : ℕ)
      → on_new_step_output o s ≡ ok t
      → Known s j
      → Known t j
  deliver-Known o s t j e h =
      let (queue, found, now) = delivery o s t e in
      subst (λ (d : Dict (List StepOutput)). is_some (lookup j d) ≡ true) (sym now)
        (insert-Known o.request_id j (queue ++ o ∷ []) s.request_outputs h)

  -- The first output that waits is yielded, if it does not say that the request is finished.
  pub yield_first :
      (k : ℕ) (o : StepOutput) (outputs : List StepOutput) (s : LlmEngine Number)
      → o.is_finished ≡ false
      → yield_from k (o ∷ outputs) s
        ≡ (o ∷ [], record s { request_outputs = insert k outputs s.request_outputs })
  unfolding yield_from
  yield_first k o outputs s h = ap (λ (t : LlmEngine Number). (o ∷ [], t)) (if_false _ _ _ h)

  pub insert-Known-engine :
      (k j : ℕ) (outputs : List StepOutput) (s : LlmEngine Number)
      → Known s j
      → Known (record s { request_outputs = insert k outputs s.request_outputs }) j
  insert-Known-engine k j outputs s h = insert-Known k j outputs s.request_outputs h

  pub next_output_lem :
      (k : ℕ) (s : LlmEngine Number) (outputs : List StepOutput)
      → Waits k s outputs
      → next_output k s ≡ ok (yield_from k outputs s)
  unfolding next_output
  next_output_lem k s outputs w = rw w refl
