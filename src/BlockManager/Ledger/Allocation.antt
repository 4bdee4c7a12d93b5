-- ===== src/BlockManager/Ledger/Allocation.antt =====
-- distserve/block_manager.py: an allocation or a release does what the ledger says.
use recompute_or_migrate.Base.{
  ℕ, ◌+◌, ◌-◌, ◌≡◌, refl, sym, ap, ◌∙◌, inl, inr, none, some, List, ◌++◌, arith, ltb, ltb→lt,
  Bool-cases, Option-cases, length, length-append, Dict, lookup, insert, assertion_error, key_error,
}
use recompute_or_migrate.Request.{Request, get_input_len, get_output_len}
use recompute_or_migrate.BlockManager.{
  BlockManager, BlockLocation, gpu, cpu, is_at, blocks_for, get_num_blocks_needed, allocate_new,
  allocate_more, allocate_blocks, give_back, free_blocks,
}
use recompute_or_migrate.BlockManager.Ledger.{
  Ledger, change, spend, gain, ledger_grow, ledger_allocate, ledger_free,
}
use recompute_or_migrate.BlockManager.Ledger.Views.{
  size_of, Views, Agree, Agree-ok, Agree-err, both_locations, sizes-insert, places-insert,
  sizes-erase, places-erase, asked,
}

allocate_new-Agree :
    (m : BlockManager) (s : Ledger) (k needed : ℕ)
    → Views m s
    → Agree (allocate_new m k needed) (ledger_grow s k needed none)
unfolding allocate_new ledger_grow
allocate_new-Agree m s k needed v = elim (asked m s needed gpu v) [
  | inl (e, t) ↦ Agree-err (λ m. m) assertion_error (rw e refl) (rw t refl)
  | inr (bs, m', e, t, took) ↦
      Agree-ok (λ m. m)
        (record m' {
          block_table = insert k bs m'.block_table;
          request_location = insert k gpu m'.request_location;
        })
        (record s {
          room = spend s.room gpu needed;
          size = change s.size k (some needed);
          place = change s.place k (some gpu);
        })
        (rw e refl) (rw t refl)
        (record {
          block = took.same.block ∙ v.block;
          rooms =
              both_locations _ (omega (arith, took.left, v.rooms gpu))
                (took.left_elsewhere ∙ v.rooms cpu);
          sizes = λ j.
              sizes-insert k j bs m'.block_table s.size needed took.size
                (ap (λ (d : Dict (List ℕ)). size_of (lookup j d)) took.same.table ∙ v.sizes j);
          places = λ j.
              places-insert k j gpu m'.request_location s.place
                (ap (λ (d : Dict BlockLocation). lookup j d) took.same.location ∙ v.places j);
        })
]

allocate_more-Agree :
    (m : BlockManager) (s : Ledger) (k needed : ℕ) (old : List ℕ)
    → Views m s
    → Agree (allocate_more m k needed old) (ledger_grow s k needed (some (length old)))
unfolding allocate_more ledger_grow
allocate_more-Agree m s k needed old v = elim (Bool-cases (ltb (length old) needed)) [
  | inr long ↦ Agree-ok (λ m. m) m s (rw long refl) (rw long refl) v
  | inl short ↦ elim (asked m s (needed - length old) gpu v) [
    | inl (e, t) ↦ Agree-err (λ m. m) assertion_error (rw (short, e) refl) (rw (short, t) refl)
    | inr (bs, m', e, t, took) ↦
        Agree-ok (λ m. m) (record m' { block_table = insert k (old ++ bs) m'.block_table })
          (record s {
            room = spend s.room gpu (needed - length old);
            size = change s.size k (some needed);
          })
          (rw (short, e) refl) (rw (short, t) refl)
          (record {
            block = took.same.block ∙ v.block;
            rooms =
                both_locations _ (omega (arith, took.left, v.rooms gpu))
                  (took.left_elsewhere ∙ v.rooms cpu);
            sizes = λ j.
                sizes-insert k j (old ++ bs) m'.block_table s.size needed
                  (omega (arith, took.size, length-append {0} old bs, ltb→lt _ _ short))
                  (ap (λ (d : Dict (List ℕ)). size_of (lookup j d)) took.same.table ∙ v.sizes j);
            places =
                λ j. ap (λ (d : Dict BlockLocation). lookup j d) took.same.location ∙ v.places j;
          })
  ]
]

needed_lem :
    (m : BlockManager) (s : Ledger) (r : Request)
    → Views m s
    → get_num_blocks_needed m r ≡ blocks_for s.block_size (get_input_len r + get_output_len r)
unfolding get_num_blocks_needed
needed_lem m s r v = ap (λ (b : ℕ). blocks_for b (get_input_len r + get_output_len r)) v.block

pub allocate_blocks-Agree :
    (m : BlockManager) (s : Ledger) (r : Request)
    → Views m s
    → Agree (allocate_blocks m r) (ledger_allocate s r)
unfolding allocate_blocks ledger_allocate
allocate_blocks-Agree m s r v =
    let at : is_at gpu (lookup r.request_id m.request_location) ≡ is_at gpu (s.place r.request_id) =
      ap (is_at gpu) (v.places r.request_id) in
    elim (Option-cases (lookup r.request_id m.block_table)) [
      | inl n ↦
          let z : s.size r.request_id ≡ none = sym (v.sizes r.request_id) ∙ ap size_of n in
          rw (n, z, needed_lem m s r v)
            (allocate_new-Agree m s r.request_id
              (blocks_for s.block_size (get_input_len r + get_output_len r)) v)
      | inr (old, n) ↦
          let z : s.size r.request_id ≡ some (length old) =
            sym (v.sizes r.request_id) ∙ ap size_of n in
          elim (Bool-cases (is_at gpu (lookup r.request_id m.request_location))) [
            | inl t ↦
                rw (n, z, t, sym at ∙ t, needed_lem m s r v)
                  (allocate_more-Agree m s r.request_id
                    (blocks_for s.block_size (get_input_len r + get_output_len r)) old v)
            | inr t ↦ rw (n, z, t, sym at ∙ t) refl
          ]
    ]

give_back-Views :
    (m : BlockManager) (s : Ledger) (k : ℕ) (l : BlockLocation) (old : List ℕ)
    → Views m s
    → Views (give_back m k l old) (record s {
      room = gain s.room l (length old);
      size = change s.size k none;
      place = change s.place k none;
    })
give_back-Views m s k gpu old v = record {
  block = v.block;
  rooms =
      both_locations _ (omega (arith, v.rooms gpu, length-append {0} m.free_gpu_blocks_list old))
        (v.rooms cpu);
  sizes = λ j. sizes-erase k j m.block_table s.size (v.sizes j);
  places = λ j. places-erase k j m.request_location s.place (v.places j);
}
give_back-Views m s k cpu old v = record {
  block = v.block;
  rooms =
      both_locations _ (v.rooms gpu)
        (omega (arith, v.rooms cpu, length-append {0} m.free_cpu_blocks_list old));
  sizes = λ j. sizes-erase k j m.block_table s.size (v.sizes j);
  places = λ j. places-erase k j m.request_location s.place (v.places j);
}

pub free_blocks-Agree :
    (m : BlockManager) (s : Ledger) (k : ℕ) → Views m s → Agree (free_blocks m k) (ledger_free s k)
unfolding free_blocks ledger_free
free_blocks-Agree m s k v = elim (Option-cases (lookup k m.block_table)) [
  | inl n ↦
      let z : s.size k ≡ none = sym (v.sizes k) ∙ ap size_of n in
      Agree-err (λ m. m) assertion_error (rw n refl) (rw z refl)
  | inr (old, n) ↦
      let z : s.size k ≡ some (length old) = sym (v.sizes k) ∙ ap size_of n in
      elim (Option-cases (lookup k m.request_location)) [
        | inl p ↦ Agree-err (λ m. m) key_error (rw (n, p) refl) (rw (z, sym (v.places k) ∙ p) refl)
        | inr (l, p) ↦
            Agree-ok (λ m. m) (give_back m k l old) _ (rw (n, p) refl)
              (rw (z, sym (v.places k) ∙ p) refl) (give_back-Views m s k l old v)
      ]
]
