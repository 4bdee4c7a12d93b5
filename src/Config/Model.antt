-- ===== src/Config/Model.antt =====
-- distserve/config.py: what the configuration of a model says of its sizes, whole and for a worker.
use Prim.Native.String.{String}
use text.Mathlib.Text.{◌==◌ as str_eq}
use recompute_or_migrate.Base.{
  ℕ, ◌+◌, ◌*◌, ◌/◌, ◌%◌, min, Bool, not, ◌&&◌, Option, none, some, List, [], ◌∷◌, ◌==◌,
  if◌then◌else◌, keys, assertion_error, value_error, not_implemented, attribute_error,
  zero_division_error, Result, ok, err, ◌>>=◌, ◌>>◌, guard, or_raise,
}
use recompute_or_migrate.Floats.{Floats, of_ℕ}
use recompute_or_migrate.Config.{ParallelConfig, parallel_config, mem_policy}

-- What `AutoConfig.from_pretrained` returns. An attribute that is absent has no value, like one that
-- is None; a flag that is absent is off.
pub record HfConfig : Type 0 where
  pub model_type : String
  pub number : String → Option ℕ
  pub flag : String → Bool

pub record ModelConfig : Type 0 where
  pub model : String
  pub tokenizer : String
  pub tokenizer_mode : String
  pub trust_remote_code : Bool
  pub dtype : String
  pub seed : ℕ
  pub hf_config : HfConfig
  pub use_dummy_weights : Bool

-- `tokenizer if tokenizer else model`: the empty text counts as none.
abbrev pub choose_tokenizer : Option String → String → String
choose_tokenizer none model = model
choose_tokenizer (some tokenizer) model = if str_eq tokenizer "" then model else tokenizer

-- `load` is `AutoConfig.from_pretrained`; whatever it raises comes out as a ValueError.
unfoldable pub model_config :
    (load : String → Bool → Option HfConfig)
    → String
    → Option String
    → String
    → Bool
    → String
    → ℕ
    → Bool
    → Result ModelConfig
unfolding mem_policy
model_config load model tokenizer tokenizer_mode trust_remote_code dtype seed use_dummy_weights = do
  guard (mem_policy dtype ("fp16" ∷ "fp32" ∷ [])) assertion_error
  hf_config ← or_raise (load model trust_remote_code) value_error
  ok (record {
    model = model;
    tokenizer = choose_tokenizer tokenizer model;
    tokenizer_mode = tokenizer_mode;
    trust_remote_code = trust_remote_code;
    dtype = dtype;
    seed = seed;
    hf_config = hf_config;
    use_dummy_weights = use_dummy_weights;
  })

unfoldable pub get_dtype_size : ModelConfig → Result ℕ
get_dtype_size m =
    if str_eq m.dtype "fp16"
    then ok 2
    else if str_eq m.dtype "fp32"
    then ok 4
    else err not_implemented

-- `self.hf_config.<name>` that is used as a number.
abbrev pub attribute : ModelConfig → String → Result ℕ
attribute m name = or_raise (m.hf_config.number name) attribute_error

-- `a // b`, and `a // b` after the assertion that nothing is left over.
abbrev pub floor_div : ℕ → ℕ → Result ℕ
floor_div a b = if b == 0 then err zero_division_error else ok (a / b)

abbrev pub exact_div : ℕ → ℕ → Result ℕ
exact_div a b =
    if b == 0
    then err zero_division_error
    else if a % b == 0
    then ok (a / b)
    else err assertion_error

unfoldable pub get_hidden_size : ModelConfig → Result ℕ
get_hidden_size m = attribute m "hidden_size"

unfoldable pub get_head_size : ModelConfig → Result ℕ
get_head_size m = do
  hidden_size ← attribute m "hidden_size"
  heads ← attribute m "num_attention_heads"
  floor_div hidden_size heads

unfoldable pub get_ffn_inter_dim : ModelConfig → Result ℕ
get_ffn_inter_dim m = attribute m "intermediate_size"

-- The argument that the methods take by default.
abbrev pub default_parallel_config : ParallelConfig
unfolding parallel_config
default_parallel_config = parallel_config 1 0 1 0

unfoldable pub get_q_heads : ModelConfig → ParallelConfig → Result ℕ
get_q_heads m p = do
  heads ← attribute m "num_attention_heads"
  floor_div heads p.tensor_parallel_size

abbrev pub is_new_falcon : ModelConfig → Bool
is_new_falcon m =
    str_eq m.hf_config.model_type "falcon" && m.hf_config.flag "new_decoder_architecture"

-- The heads that every query head has of its own, split over the workers.
abbrev pub split_attention_heads : ModelConfig → ParallelConfig → Result ℕ
split_attention_heads m p = do
  total_num_attention_heads ← attribute m "num_attention_heads"
  exact_div total_num_attention_heads p.tensor_parallel_size

abbrev pub split_shared_heads : ModelConfig → ParallelConfig → Result ℕ
split_shared_heads m p = elim (m.hf_config.number "n_head_kv") [
  | some n_head_kv ↦ floor_div n_head_kv p.tensor_parallel_size
  | none ↦ elim (m.hf_config.number "num_key_value_heads") [
    | some num_key_value_heads ↦ floor_div num_key_value_heads p.tensor_parallel_size
    | none ↦ split_attention_heads m p
  ]
]

unfoldable pub get_num_heads : ModelConfig → ParallelConfig → Result ℕ
get_num_heads m p =
    if not (is_new_falcon m) && m.hf_config.flag "multi_query" then ok 1 else split_shared_heads m p

abbrev pub possible_keys : List String
possible_keys =
    "max_position_embeddings" ∷ "n_positions" ∷ "max_seq_len" ∷ "max_sequence_length"
    ∷ "max_seq_length" ∷ "seq_len" ∷ []

-- `min(max_model_len, max_len_key)`; no length stands for infinity.
abbrev pub lower : Option ℕ → Option ℕ → Option ℕ
lower max_model_len none = max_model_len
lower none (some max_len_key) = some max_len_key
lower (some max_model_len) (some max_len_key) = some (min max_model_len max_len_key)

unfoldable pub least_of : HfConfig → List String → Option ℕ → Option ℕ
least_of c [] max_model_len = max_model_len
least_of c (key ∷ keys) max_model_len = least_of c keys (lower max_model_len (c.number key))

unfoldable pub get_max_model_len : ModelConfig → Option ℕ
unfolding least_of
get_max_model_len m = least_of m.hf_config possible_keys none

unfoldable pub get_num_layers : ModelConfig → ParallelConfig → Result ℕ
get_num_layers m p = do
  total_num_hidden_layers ← attribute m "num_hidden_layers"
  exact_div total_num_hidden_layers p.pipeline_parallel_size

module _ (F : Floats) where
  -- The sizes of the embeddings: whole numbers unless the length of the model is infinite.
  abbrev pub embeddings : ℕ → ℕ → Option ℕ → F.Carrier
  embeddings vocab_size h (some max_model_len) = of_ℕ F (vocab_size * h + max_model_len * h)
  embeddings vocab_size h none = F.add (of_ℕ F (vocab_size * h)) (F.mul F.infinity (of_ℕ F h))

  -- `/` of whole numbers.
  abbrev pub true_div : ℕ → ℕ → Result F.Carrier
  true_div a b = if b == 0 then err zero_division_error else ok (F.div (of_ℕ F a) (of_ℕ F b))

  unfoldable pub get_model_size_in_bytes : ModelConfig → ParallelConfig → Result F.Carrier
  unfolding get_hidden_size get_num_layers get_dtype_size get_max_model_len
  get_model_size_in_bytes m p = do
    vocab_size ← attribute m "vocab_size"
    h ← get_hidden_size m
    layers ← get_num_layers m p
    attention ← true_div (4 * layers * (h * h)) p.tensor_parallel_size
    ffn ← true_div (8 * layers * (h * h)) p.tensor_parallel_size
    dtype_size ← get_dtype_size m
    ok (
        F.mul
          (F.add (F.add (F.add (embeddings vocab_size h (get_max_model_len m)) attention) ffn)
            (of_ℕ F (5 * layers * h)))
          (of_ℕ F dtype_size))
