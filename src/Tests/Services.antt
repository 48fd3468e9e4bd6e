-- ===== src/Tests/Services.antt =====
-- The theorems on internal/config, internal/llm, internal/gateway and eval/scoring at concrete inputs.
use acgc_project.Common.{
  ℕ, ◌+◌, ◌≡◌, Str, List, [], ◌∷◌, Option, none, some, map, length, codes, split, arith, is_empty,
  true, false, trim_space, refl, trim_left, trim_right, is_space, to_lower, lower_byte, contains,
  has_prefix,
}
use acgc_project.Config.{Env, getenv, load_dot_env}
use acgc_project.Config.DotEnv.{first_given, getenv-load_dot_env}
use acgc_project.Gc.WellFormed.{IsClocked}
use acgc_project.Llm.{Client, Request, HttpResponse}
use acgc_project.Llm.Compressor.{compress}
use acgc_project.Llm.Branches.{branch_id, compress-IsClocked}
use acgc_project.Scoring.{Verdict, PairResult, aggregate_pairs, build_pair, ProbeResult, Score}
use acgc_project.Scoring.Counts.{count_of, number_of, regressions, aggregate_pairs_lem}
use acgc_project.Scoring.Strategies.{
  StrategyMetric, StrategyAggregate, new_strategy_metric, aggregate_strategies,
}
use acgc_project.Scoring.Compared.{probes_of, aggregate_strategies_lem}
use acgc_project.Scoring.Probes.{
  MatchType, Probe, Answer, Matchers, normalize_quotes, count_matched, match_contains_all,
  match_value, score_probe, first_phrase, detect_abstain, settle,
}
use acgc_project.Scoring.Abstained.{abstains, score_probe-positive}
use acgc_project.Gateway.{Server, RunRequest, run_request}
use acgc_project.Gateway.Captured.{Ran, run_request-Ran}
use acgc_project.Tests.{hundredths}
use acgc_project.Tests.Vectors.{list_graph}
use acgc_project.Tests.Workers.{manager, nothing_stored}

abbrev port_set : Env
port_set = (codes "ACGC_GRPC_PORT", codes "9000") ∷ []

abbrev dot_env : Option Str
dot_env = some (codes "# settings\nACGC_GRPC_PORT=7000\nACGC_MONGO_DB = \"other\"\n")

getenv-load_dot_env_example :
    getenv (codes "ACGC_MONGO_DB") (load_dot_env dot_env port_set) ≡ elim dot_env as (λ _. Str) [
      | none ↦ getenv (codes "ACGC_MONGO_DB") port_set
      | some t ↦
          first_given (codes "ACGC_MONGO_DB") (getenv (codes "ACGC_MONGO_DB") port_set) (split 10 t)
    ]
getenv-load_dot_env_example = getenv-load_dot_env (codes "ACGC_MONGO_DB") dot_env port_set

abbrev answered : HttpResponse
answered = record {
  status_code = 200;
  body = some (record {
    choices =
        record {
          message = record {
            role = codes "assistant";
            content = codes "The parser ships.\nENTITIES: ADR-12";
          };
          finish_reason = codes "stop";
        }
        ∷ [];
    prompt_tokens = 40;
    completion_tokens = 9;
    cached_tokens = 0;
  });
}

abbrev client : Client
client = record { base_url = codes "http://localhost"; api_key = []; model = codes "gpt-4o-mini" }

abbrev answer : ℕ → Request hundredths → Option HttpResponse
answer k request = some answered

tick_apart : (i j : ℕ) → 100 + i ≡ 100 + j → i ≡ j
tick_apart i j e = omega arith

compress-IsClocked_example :
    IsClocked (λ k nodes. compress (answer k) client (100 + k) nodes) (λ k. branch_id (100 + k))
compress-IsClocked_example = compress-IsClocked answer client (λ k. 100 + k) tick_apart

abbrev probe : ℕ → ProbeResult
probe tokens = record { prompt_tokens = tokens; output_tokens = 10; latency_ms = 5 }

abbrev scored : ℕ → Score hundredths
scored value = record { value = value; method = codes "probe"; detail = [] }

abbrev pairs : List (PairResult hundredths)
pairs =
    build_pair hundredths (codes "s1") (codes "p1") (codes "baseline") (codes "acgc") (probe 1000)
      (probe 200) (scored 500) (scored 500)
    ∷ build_pair hundredths (codes "s1") (codes "p2") (codes "baseline") (codes "acgc") (probe 1000)
        (probe 900) (scored 500) (scored 100)
    ∷ []

aggregate_pairs_lem_example :
    let a = aggregate_pairs hundredths pairs in
    ((v : Verdict) → count_of hundredths v a ≡ number_of hundredths v pairs)
    × (a.total_pairs ≡ length pairs)
    × (a.acgc_wins + a.acgc_wins_star + a.ties + a.acgc_losses + a.baseline_wins ≡ a.total_pairs)
    × (a.regression_count ≡ regressions hundredths pairs)
aggregate_pairs_lem_example = aggregate_pairs_lem hundredths pairs

abbrev metrics : List (StrategyMetric hundredths)
metrics =
    new_strategy_metric hundredths (codes "s1") (codes "p1") (codes "acgc") (probe 200) (scored 500)
    ∷ new_strategy_metric hundredths (codes "s1") (codes "p1") (codes "baseline") (probe 1000)
        (scored 500)
    ∷ []

abbrev order : List Str
order = codes "baseline" ∷ codes "acgc" ∷ codes "window" ∷ []

aggregate_strategies_lem_example :
    map {B = Str × ℕ}
      (λ (a : StrategyAggregate hundredths). (a.strategy, a.probes))
      (aggregate_strategies hundredths metrics order (codes "baseline"))
    ≡ map {B = Str × ℕ} (λ k. (k, probes_of hundredths k metrics)) order
aggregate_strategies_lem_example =
    aggregate_strategies_lem hundredths metrics order (codes "baseline")

abbrev server : Server hundredths
server = record {
  manager = manager;
  default_llm = client;
  default_counter = λ s. length s;
  sort_slice = λ less nodes. nodes;
  sort_hits = λ less hits. hits;
  hits_order = λ _. [];
  vectors_order = λ m. m;
  nodes_order = λ _. [];
  load = λ sid. nothing_stored;
  embed = none;
  post = answer 0;
  now_session = 1;
  now_event = 2;
  now_answer = 3;
}

abbrev request : RunRequest hundredths
request = record {
  session_id = codes "s";
  task_id = [];
  user_message = codes "Ship the parser.";
  conversation_history = [];
  token_budget = 0;
  llm_config = none;
}

run_request-Ran_example : Ran server request [] (run_request list_graph server request [])
run_request-Ran_example = run_request-Ran server request []

abbrev all_of : Probe hundredths
all_of = record {
  match_type = MatchType.contains_all;
  expected_any = codes "ADR" ∷ codes "Mongo" ∷ [];
  numeric_value = 0;
  numeric_tol_pct = 0;
}

abbrev recalled : Answer
recalled = record { response = codes "See adr-12."; error = [] }

abbrev no_matchers : Matchers hundredths
no_matchers = record { match_pattern = λ p s. none; first_number = λ s. none; abs = λ x. x }

half_recalled : (score_probe hundredths no_matchers all_of recalled).value ≡ some 250
unfolding score_probe match_value match_contains_all count_matched to_lower lower_byte contains
    has_prefix trim_space trim_left trim_right is_space settle detect_abstain normalize_quotes
    first_phrase
half_recalled = refl

score_probe-positive_example :
    (is_empty recalled.error ≡ true)
    × (is_empty (trim_space recalled.response) ≡ false)
    × (abstains recalled.response ≡ false)
    × (match_value hundredths no_matchers all_of recalled.response ≡ some 250)
score_probe-positive_example =
    score_probe-positive hundredths no_matchers all_of recalled 250 refl half_recalled refl
