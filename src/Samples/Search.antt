-- ===== src/Samples/Search.antt =====
-- The theorems on the search over configurations and rates at small inputs.
use recompute_or_migrate.Base.{
  ◌^◌, ◌*◌, ◌≡◌, refl, ◌↔◌, Bool, false, Option, some, List, arith, leb, ok,
}
use recompute_or_migrate.Simulator.Bisection.{Rate, run_binary_search, Ends, run_binary_search-Ends}
use recompute_or_migrate.Simulator.Configs.{
  Config, formalize_model_name, model_hyperparams, get_distserve_configs,
}
use recompute_or_migrate.Simulator.Configs.Members.{Has}
use recompute_or_migrate.Simulator.Configs.Complete.{IsAllowed, get_distserve_configs-Has_iff}

-- Rates of up to three requests in a second are served well.
abbrev up_to_three : Rate → Option Bool
up_to_three r = some (leb r.num (3 * 2 ^ r.halvings))

run_binary_search-Ends_example : Ends up_to_three 16 1 2 (run_binary_search up_to_three 16 1 2 6)
run_binary_search-Ends_example = run_binary_search-Ends up_to_three 16 1 2 5 (omega arith)

is_opt_13b : formalize_model_name "OPT-13B" ≡ ok "facebook/opt-13b"
unfolding formalize_model_name
is_opt_13b = refl

is_forty : model_hyperparams "facebook/opt-13b" ≡ ok (40, 40)
unfolding model_hyperparams
is_forty = refl

get_distserve_configs-Has_iff_example :
    (cs : List Config) × (get_distserve_configs "OPT-13B" 2 4 false ≡ ok cs)
    × ((c : Config) → Has c cs ↔ IsAllowed 2 4 false 40 40 c)
get_distserve_configs-Has_iff_example =
    get_distserve_configs-Has_iff 2 4 40 40 (omega arith) (omega arith) "OPT-13B" "facebook/opt-13b"
      false is_opt_13b is_forty
