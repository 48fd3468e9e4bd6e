-- ===== src/Config/Load.antt =====
-- internal/config/config.go: `Config` and `Load`.
use acgc_project.Common.{Str, [], Bool, false, Option, codes, ℤ, pos}
use acgc_project.Domain.{Floats}
use acgc_project.Config.{
  Env, getenv, load_dot_env, env_or_default, env_or_default_int, env_or_default_bool,
  env_or_default_float,
}

pub record Config (fl : Floats) : Type 0 where
  pub grpc_port : Str
  pub mongo_uri : Str
  pub mongo_db : Str
  pub default_llm_provider : Str
  pub default_llm_model : Str
  pub default_llm_base_url : Str
  pub default_llm_api_key : Str
  pub summarizer_provider : Str
  pub summarizer_model : Str
  pub summarizer_base_url : Str
  pub summarizer_api_key : Str
  pub default_token_budget : ℤ
  pub max_tree_depth : ℤ
  pub max_children_per_node : ℤ
  pub low_relevance_threshold : fl.F
  pub gc_decision_sweep_floor : fl.F
  pub gc_max_active_nodes : ℤ
  pub gc_sweep_headroom_ratio : fl.F
  pub stale_after_turns : ℤ
  pub gc_check_interval : ℤ
  pub session_channel_buffer : ℤ
  pub session_idle_timeout_s : ℤ
  pub snapshot_interval_s : ℤ
  pub semantic_enabled : Bool
  pub semantic_weight : fl.F
  pub hnsw_top_k_at_compile : ℤ
  pub archive_semantic_top_k : ℤ
  pub hnsw_m : ℤ
  pub hnsw_ef_search : ℤ
  pub embed_provider : Str
  pub embed_base_url : Str
  pub embed_api_key : Str
  pub embed_model : Str
  pub embed_dim : ℤ
  pub latency_breakdown : Bool
  pub cache_stable_render : Bool

module _ (fl : Floats) where
  -- `Load`; `dot_env` is the text of the file `.env`
  unfoldable pub load : (Str → Option fl.F) → Option Str → Env → Config fl
  unfolding load_dot_env env_or_default env_or_default_int env_or_default_bool env_or_default_float
  load parse_float dot_env env =
      let loaded = load_dot_env dot_env env in
      record {
        grpc_port = env_or_default loaded (codes "ACGC_GRPC_PORT") (codes "50051");
        mongo_uri = env_or_default loaded (codes "ACGC_MONGO_URI") [];
        mongo_db = env_or_default loaded (codes "ACGC_MONGO_DB") (codes "acgc");
        default_llm_provider = env_or_default loaded (codes "ACGC_LLM_PROVIDER") (codes "openai");
        default_llm_model = env_or_default loaded (codes "ACGC_LLM_MODEL") (codes "gpt-4o-mini");
        default_llm_base_url =
            env_or_default loaded (codes "ACGC_LLM_BASE_URL") (codes "https://api.openai.com/v1");
        default_llm_api_key = env_or_default loaded (codes "ACGC_LLM_API_KEY") [];
        summarizer_provider =
            env_or_default loaded (codes "ACGC_SUMMARIZER_PROVIDER") (codes "openai");
        summarizer_model =
            env_or_default loaded (codes "ACGC_SUMMARIZER_MODEL") (codes "gpt-4o-mini");
        summarizer_base_url =
            env_or_default loaded (codes "ACGC_SUMMARIZER_BASE_URL")
              (codes "https://api.openai.com/v1");
        summarizer_api_key = env_or_default loaded (codes "ACGC_SUMMARIZER_API_KEY") [];
        default_token_budget = env_or_default_int loaded (codes "ACGC_TOKEN_BUDGET") (pos 6000);
        max_tree_depth = env_or_default_int loaded (codes "ACGC_MAX_TREE_DEPTH") (pos 10);
        max_children_per_node = env_or_default_int loaded (codes "ACGC_MAX_CHILDREN") (pos 50);
        low_relevance_threshold =
            env_or_default_float fl parse_float loaded (codes "ACGC_LOW_RELEVANCE")
              (fl.literal 30 2);
        gc_decision_sweep_floor =
            env_or_default_float fl parse_float loaded (codes "ACGC_GC_DECISION_SWEEP_FLOOR")
              (fl.literal 20 2);
        gc_max_active_nodes = env_or_default_int loaded (codes "ACGC_GC_MAX_ACTIVE_NODES") (pos 25);
        gc_sweep_headroom_ratio =
            env_or_default_float fl parse_float loaded (codes "ACGC_GC_SWEEP_HEADROOM_RATIO")
              (fl.literal 60 2);
        stale_after_turns = env_or_default_int loaded (codes "ACGC_STALE_TURNS") (pos 15);
        gc_check_interval = env_or_default_int loaded (codes "ACGC_GC_INTERVAL") (pos 5);
        session_channel_buffer = env_or_default_int loaded (codes "ACGC_SESSION_BUFFER") (pos 100);
        session_idle_timeout_s =
            env_or_default_int loaded (codes "ACGC_SESSION_IDLE_TIMEOUT") (pos 1800);
        snapshot_interval_s = env_or_default_int loaded (codes "ACGC_SNAPSHOT_INTERVAL") (pos 60);
        semantic_enabled = env_or_default_bool loaded (codes "ACGC_SEMANTIC_ENABLED") false;
        semantic_weight =
            env_or_default_float fl parse_float loaded (codes "ACGC_SEMANTIC_WEIGHT")
              (fl.literal 20 2);
        hnsw_top_k_at_compile =
            env_or_default_int loaded (codes "ACGC_HNSW_TOP_K_AT_COMPILE") (pos 12);
        archive_semantic_top_k =
            env_or_default_int loaded (codes "ACGC_ARCHIVE_SEMANTIC_TOP_K") (pos 12);
        hnsw_m = env_or_default_int loaded (codes "ACGC_HNSW_M") (pos 16);
        hnsw_ef_search = env_or_default_int loaded (codes "ACGC_HNSW_EF_SEARCH") (pos 50);
        embed_provider = env_or_default loaded (codes "ACGC_EMBED_PROVIDER") (codes "openai");
        embed_base_url =
            env_or_default loaded (codes "ACGC_EMBED_BASE_URL") (codes "https://api.openai.com/v1");
        embed_api_key =
            env_or_default loaded (codes "ACGC_EMBED_API_KEY")
              (getenv (codes "ACGC_LLM_API_KEY") loaded);
        embed_model =
            env_or_default loaded (codes "ACGC_EMBED_MODEL") (codes "text-embedding-3-small");
        embed_dim = env_or_default_int loaded (codes "ACGC_EMBED_DIM") (pos 1536);
        latency_breakdown = env_or_default_bool loaded (codes "ACGC_LATENCY_BREAKDOWN") false;
        cache_stable_render = env_or_default_bool loaded (codes "ACGC_CACHE_STABLE_RENDER") false;
      }
