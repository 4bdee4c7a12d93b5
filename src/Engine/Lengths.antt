-- ===== src/Engine/Lengths.antt =====
-- distserve/engine.py: where the length of a prompt is noted for the decisions of RoM.
use Prim.Native.String.{String}
use recompute_or_migrate.Base.{
  ℕ, ◌≡◌, refl, sym, ap, ◌∙◌, inl, inr, Bool, true, false, ◌&&◌, Option, none, some, List, [], ◌∷◌,
  ◌==◌, if◌then◌else◌, ==_iff, ==_refl, Bool-cases, if_both, ℤ, lookup, assertion_error, key_error,
  ok, or_raise, >>=-eq-ok, ok-injective, guard-eq-ok,
}
use recompute_or_migrate.Request.{Request}
use recompute_or_migrate.Request.Sampling.{SamplingParams}
use recompute_or_migrate.Request.Migrating.{Tokenizer, create_request}
use recompute_or_migrate.Lifetime.{issued, LifetimeEvent}
use recompute_or_migrate.Lifetime
use recompute_or_migrate.Engine.{
  repeats, LlmEngine, PromptLens, same_key, len_of, set_len, prompt_len_value, open_request,
  on_new_lifetime_event, hand_in, start_generate,
}

same_key-congr : (i k j : Option ℕ) → same_key i k ≡ true → same_key i j ≡ same_key k j
unfolding same_key
same_key-congr none none j e = refl
same_key-congr (some a) (some b) j e = ap (λ (c : ℕ). same_key (some c) j) ((==_iff a b).0 e)
same_key-congr none (some b) j e = cc
same_key-congr (some a) none j e = cc

same_key_apart :
    (i k j : Option ℕ) → same_key i k ≡ false → same_key k j ≡ true → same_key i j ≡ false
unfolding same_key
same_key_apart none none j e f = cc
same_key_apart none (some b) none e f = cc
same_key_apart none (some b) (some c) e f = refl
same_key_apart (some a) none none e f = refl
same_key_apart (some a) none (some c) e f = cc
same_key_apart (some a) (some b) none e f = refl
same_key_apart (some a) (some b) (some c) e f = ap (λ (d : ℕ). a == d) (sym ((==_iff b c).0 f)) ∙ e

same_key_refl : (k : Option ℕ) → same_key k k ≡ true
unfolding same_key
same_key_refl none = refl
same_key_refl (some a) = ==_refl a

len_of-set_len :
    (j k : Option ℕ) (n : ℕ) (lens : PromptLens)
    → len_of j (set_len k n lens) ≡ (if same_key k j then some n else len_of j lens)
unfolding len_of set_len
len_of-set_len j k n [] = refl
len_of-set_len j k n ((i, m) ∷ lens) = elim (Bool-cases (same_key i k)) [
  | inl t ↦ elim (Bool-cases (same_key k j)) [
    | inl u ↦ rw (t, u, same_key-congr i k j t, u) refl
    | inr u ↦ rw (t, u, same_key-congr i k j t, u) refl
  ]
  | inr t ↦ elim (Bool-cases (same_key k j)) [
    | inl u ↦ rw (t, u, same_key_apart i k j t u) (len_of-set_len j k n lens ∙ rw u refl)
    | inr u ↦ rw (t, u, len_of-set_len j k n lens, u) refl
  ]
]

module _ {Number : Type 0} where
  event-lens :
      (k : ℕ) (event : LifetimeEvent Number) (b : Bool) (s t : LlmEngine Number)
      → on_new_lifetime_event k event b s ≡ ok t
      → t.prompt_len_map ≡ s.prompt_len_map
  unfolding on_new_lifetime_event
  event-lens k event b s t e =
      let (events, found, done) =
        >>=-eq-ok (or_raise (lookup k s.request_lifetime_events) key_error) _ e in
      ap (λ (u : LlmEngine Number). u.prompt_len_map) (sym (ok-injective done))
      ∙ if_both (λ (u : LlmEngine Number). u.prompt_len_map ≡ s.prompt_len_map)
          (b && repeats events event) s _ refl refl

  -- The length of a prompt is noted under the identifier that the caller gives, and under no
  -- identifier if he gives none; what is noted under any other key stays.
  pub start_generate-lens :
      (tok : Tokenizer) (tokenized : String → ℕ) (prompt : Option String) (prompt_len : Option ℕ)
      (ids : Option (List ℕ)) (params : SamplingParams) (arrival : Option ℤ) (request_id : Option ℕ)
      (now : ℤ) (stamp : Number) (s t : LlmEngine Number) (r : Request) (key : Option ℕ)
      → start_generate tok tokenized prompt prompt_len ids params arrival request_id now stamp s
        ≡ ok (r, t)
      → len_of key t.prompt_len_map ≡ (
          if same_key request_id key
          then some (prompt_len_value tokenized prompt prompt_len ids)
          else len_of key s.prompt_len_map)
  unfolding start_generate hand_in open_request
  start_generate-lens tok tokenized prompt prompt_len ids params arrival request_id now stamp s t r
        key e =
      let n = prompt_len_value tokenized prompt prompt_len ids in
      let (ready, e1) = guard-eq-ok s.engine_initialized assertion_error _ e in
      let (created, made, e2) =
        >>=-eq-ok (create_request tok prompt ids params s.request_counter arrival request_id now) _
          e1 in
      let (u, noted, e3) =
        >>=-eq-ok
          (on_new_lifetime_event created.0.request_id (Lifetime.init stamp issued Lifetime.null)
            false (open_request created.0 created.1 s))
          _ e2 in
      let lens : t.prompt_len_map
          ≡ set_len request_id (prompt_len_value tokenized prompt prompt_len ids) u.prompt_len_map =
        ap (λ (z : Request × LlmEngine Number). z.1.prompt_len_map) (sym (ok-injective e3)) in
      let same =
        event-lens created.0.request_id _ false (open_request created.0 created.1 s) u noted in
      ap (len_of key)
        (lens ∙ ap (set_len request_id (prompt_len_value tokenized prompt prompt_len ids)) same)
      ∙ len_of-set_len key request_id (prompt_len_value tokenized prompt prompt_len ids)
          s.prompt_len_map
