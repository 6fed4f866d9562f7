-- ===== src/IdsRm/Sections.antt =====
-- Init and DeInit of src/IdsRm_Manager.cpp, section by section: what one thread does between two
-- places where others can come in.
use autosar_idsm.Prelude.{Bool, true, false, Option, none, some, List, [], ◌∷◌, if◌then◌else◌}
use autosar_idsm.IdsRm.Types.{RmConfig, Reporter, done, not_ok, null_pointer, not_initialized}
use autosar_idsm.IdsRm.Reporter.{
  RmResult, answered, aborted, set_config, reset_rm_stats, set_enabled, register_sink, run_worker,
  start_worker, start_sink, set_initialized, join_worker, run_sink, join_sink, sink_close,
}

-- The sections of Init and DeInit.
pub data Section : Type 0 where
  put_config : RmConfig → Section
  put_enabled put_registered put_worker put_sink put_initialized : Bool → Section
  clear_stats spawn_worker spawn_sink wait_worker wait_sink close_sink : Section

unfoldable pub run_section : Section → Reporter → RmResult
unfolding set_config reset_rm_stats set_enabled register_sink run_worker start_worker start_sink
    set_initialized join_worker run_sink join_sink sink_close
run_section (put_config config) r = answered done (set_config config r)
run_section (put_enabled on) r = answered done (set_enabled on r)
run_section (put_registered on) r = answered done (register_sink on r)
run_section (put_worker on) r = answered done (run_worker on r)
run_section (put_sink on) r = answered done (run_sink on r)
run_section (put_initialized on) r = answered done (set_initialized on r)
run_section clear_stats r = answered done (reset_rm_stats r)
run_section spawn_worker r = start_worker r
run_section spawn_sink r = start_sink r
run_section wait_worker r = answered done (join_worker r)
run_section wait_sink r = answered done (join_sink r)
run_section close_sink r = answered done (sink_close r)

-- Init behind its test of m_initialized.
abbrev pub init_sections : RmConfig → List Section
init_sections config =
    put_config config
    ∷ clear_stats
    ∷ put_enabled (config.enabled)
    ∷ put_registered true
    ∷ put_worker true
    ∷ spawn_worker
    ∷ spawn_sink
    ∷ put_initialized true
    ∷ []

-- DeInit behind its test of m_initialized.
abbrev pub deinit_sections : List Section
deinit_sections =
    put_registered false
    ∷ put_worker false
    ∷ wait_worker
    ∷ put_sink false
    ∷ wait_sink
    ∷ close_sink
    ∷ put_initialized false
    ∷ put_enabled false
    ∷ []

-- The sections one after the other, with no other thread in between.
unfoldable pub run_all : List Section → Reporter → RmResult
unfolding run_section
run_all [] r = answered done r
run_all (s ∷ rest) r = elim (run_section s r) [
  | aborted ↦ aborted
  | answered code r' ↦ run_all rest r'
]

-- Init, with its argument NULL or not, when no other thread comes in between.
unfoldable pub rm_init : Option RmConfig → Reporter → RmResult
unfolding run_all
rm_init none r = answered null_pointer r
rm_init (some config) r =
    if r.initialized then answered not_ok r else run_all (init_sections config) r

-- DeInit, when no other thread comes in between.
unfoldable pub rm_deinit : Reporter → RmResult
unfolding run_all
rm_deinit r = if r.initialized then run_all deinit_sections r else answered not_initialized r
