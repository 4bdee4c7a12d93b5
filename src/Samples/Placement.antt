-- ===== src/Samples/Placement.antt =====
-- The theorems on the split of a model over workers and placement groups at small inputs.
use Prim.Native.String.{String}
use text.Mathlib.Text.{◌==◌ as str_eq}
use recompute_or_migrate.Base.{
  ℕ, ◌+◌, ◌*◌, ◌/◌, ◌≡◌, refl, false, Option, none, some, List, [], ◌∷◌, arith, if◌then◌else◌,
  length, ℤ, pos, lcm, first_from, sum_of, assertion_error, ok, err,
}
use recompute_or_migrate.Config.{ParallelConfig, parallel_config, DisaggParallelConfig}
use recompute_or_migrate.Config.Model.{
  ModelConfig, get_dtype_size, get_hidden_size, get_model_size_in_bytes, get_num_heads,
  get_num_layers, get_max_model_len, get_head_size,
}
use recompute_or_migrate.Memory.{profile_num_available_blocks, get_block_size_in_bytes}
use recompute_or_migrate.Memory.Fitting.{IsFilled, profile_num_available_blocks-IsFilled}
use recompute_or_migrate.Samples.Numbers.{Number, finite, infinite, numbers}
use recompute_or_migrate.Engine.Placement.{init_placement_groups, ParaWorker, init_workers}
use recompute_or_migrate.Engine.Placement.Aligned.{IsAligned, init_placement_groups-IsAligned}

-- Twelve layers of eight heads, and 2048 positions.
abbrev opt_number : String → Option ℕ
opt_number name =
    if str_eq name "num_hidden_layers"
    then some 12
    else if str_eq name "num_attention_heads"
    then some 8
    else if str_eq name "vocab_size"
    then some 1000
    else if str_eq name "hidden_size"
    then some 512
    else if str_eq name "max_position_embeddings"
    then some 2048
    else none

abbrev opt : ModelConfig
opt = record {
  model = "opt";
  tokenizer = "opt";
  tokenizer_mode = "auto";
  trust_remote_code = false;
  dtype = "fp16";
  seed = 1;
  hf_config = record { model_type = "opt"; number = opt_number; flag = λ name. false };
  use_dummy_weights = false;
}

-- Four ranks of three layers and one worker; two ranks of six layers and two workers.
abbrev deep : ParallelConfig
unfolding parallel_config
deep = parallel_config 1 0 4 0

abbrev wide : ParallelConfig
unfolding parallel_config
wide = parallel_config 2 0 2 0

abbrev both : DisaggParallelConfig
both = record { context = deep; decoding = wide }

-- A model whose heads share their keys and values.
abbrev llama : ModelConfig
llama = record opt {
  hf_config = record {
    model_type = "llama";
    number = λ name. if str_eq name "num_key_value_heads" then some 8 else opt_number name;
    flag = λ name. false;
  };
}

-- Three workers leave two of eight shared heads out, where eight heads of their own are refused.
shared_heads : get_num_heads llama (parallel_config 3 0 1 0) ≡ ok 2
unfolding get_num_heads parallel_config
shared_heads = refl

own_heads : get_num_heads opt (parallel_config 3 0 1 0) ≡ err assertion_error
unfolding get_num_heads parallel_config
own_heads = refl

positions : get_max_model_len opt ≡ some 2048
unfolding get_max_model_len
positions = refl

groups_of_both : init_placement_groups opt both ≡ ok (4 ∷ 4 ∷ [])
unfolding init_placement_groups get_num_layers lcm first_from deep wide
groups_of_both = refl

init_placement_groups-IsAligned_example :
    (groups : List ℕ) × (cs ds : List (List ParaWorker)) × (init_placement_groups opt both
      ≡ ok groups)
    × (sum_of (λ n. n) groups ≡ 4 * 1 + 2 * 2)
    × (init_workers opt deep groups ≡ ok cs)
    × (init_workers opt wide groups ≡ ok ds)
    × IsAligned 12 (length groups) 3 6 cs ds
unfolding deep wide
init_placement_groups-IsAligned_example =
    init_placement_groups-IsAligned opt both 12 3 6 refl (omega arith) refl refl

abbrev floor_quotient : Number → ℕ → ℤ
floor_quotient (finite a) n = pos (a / n)
floor_quotient infinite n = pos 0

-- A block of sixteen tokens takes 98304 bytes on each of the four workers.
profiled :
    profile_num_available_blocks numbers floor_quotient 1000000000 opt wide 16 (finite 1) 1000000
    ≡ ok (9948, 10)
unfolding profile_num_available_blocks get_block_size_in_bytes get_model_size_in_bytes
    get_hidden_size get_num_layers get_num_heads get_head_size get_dtype_size get_max_model_len wide
profiled = refl

profile_num_available_blocks-IsFilled_example : IsFilled opt wide 16 1000000 10
profile_num_available_blocks-IsFilled_example =
    profile_num_available_blocks-IsFilled numbers floor_quotient 1000000000 opt wide 16 (finite 1)
      1000000 9948 10 profiled
