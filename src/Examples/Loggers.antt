-- ===== src/Examples/Loggers.antt =====
-- A small logging library, and loggers of two peers in it.
use dpn.Prelude.{
  ℕ, suc, ◌≡◌, refl, inl, inr, ◌⊎◌, Bool, Bool-cases, true, false, [], ◌∷◌, Bytes, arith,
  if◌then◌else◌, update, ◌==◌, ==_refl,
}
use dpn.Exec.{done, raised, exception, ◌>>=◌, ◌>>◌}
use dpn.Text.{codes}
use dpn.Port.{same_name}
use dpn.Logger.{
  Spdlog, Logger, create, destroy, peer_logger, warn, info, setup_logger, update_logger,
  level_number,
}
use dpn.Logger.Documented.{Views, Sets, Registers}
use dpn.Logger.Levels.{change_all, level, pattern, InStep, create-change_all-InStep}
use dpn.Logger.Registry.{Constructed, peer_logger_twice}

record Logs : Type 0 where
  handles : ℕ
  names : ℕ → Bytes
  sinks : ℕ → ℕ
  logger_levels : ℕ → ℕ
  sink_levels : ℕ → ℕ
  sink_patterns : ℕ → Bytes
  used : Bytes → Bool

abbrev logs : Spdlog Logs
unfolding same_name
logs = record {
  level_trace = 0;
  level_debug = 1;
  level_info = 2;
  level_warn = 3;
  level_error = 4;
  level_critical = 5;
  level_off = 6;
  make_sink = λ w. (w.handles, record w { handles = suc w.handles });
  make_logger =
      λ n w. (w.handles, record w { handles = suc w.handles; names = update w.names w.handles n });
  add_sink = λ l k w. record w { sinks = update w.sinks l k };
  register_logger = λ l w.
      if w.used (w.names l)
      then raised exception w
      else done tt (record w { used = λ n. if same_name (w.names l) n then true else w.used n });
  drop = λ m w. record w { used = λ n. if same_name m n then false else w.used n };
  sink_set_level = λ k n w. record w { sink_levels = update w.sink_levels k n };
  sink_set_pattern = λ k p w. record w { sink_patterns = update w.sink_patterns k p };
  logger_set_level = λ l n w. record w { logger_levels = update w.logger_levels l n };
  logger_set_pattern = λ l p w. record w { sink_patterns = update w.sink_patterns (w.sinks l) p };
}

abbrev views : Views Logs
views = record {
  logger_level = λ l w. w.logger_levels l;
  sink_level = λ k w. w.sink_levels k;
  sink_pattern = λ k w. w.sink_patterns k;
  logger_name = λ l w. w.names l;
  registered = λ n w. w.used n;
}

one_pattern :
    (j k : ℕ) (p : Bytes) (patterns : ℕ → Bytes)
    → (update patterns j p k ≡ p) ⊎ (update patterns j p k ≡ patterns k)
one_pattern j k p patterns = elim (Bool-cases (j == k)) [
  | inl same ↦ inl (rw same refl)
  | inr differs ↦ inr (rw differs refl)
]

logs-Sets : Sets logs views
unfolding logs
logs-Sets = record {
  sink_level_set = λ k n w. rw (==_refl k) refl;
  logger_level_set = λ l n w. rw (==_refl l) refl;
  sink_pattern_set = λ k p w. rw (==_refl k) refl;
  logger_pattern_set = λ k l p w. one_pattern (w.sinks l) k p w.sink_patterns;
  sink_level_apart = λ k l n w. refl;
  sink_level_pattern = λ k j p w. refl;
  sink_level_logger_pattern = λ k l p w. refl;
  logger_level_pattern = λ l k p w. refl;
  logger_level_logger_pattern = λ l j p w. refl;
}

logs-Registers : Registers logs views
unfolding logs
logs-Registers = record {
  named = λ n w. rw (==_refl w.handles) refl;
  named_sink = λ l k w. refl;
  taken = λ l w h. rw h refl;
  free = λ l w h. (
    record w { used = λ n. if same_name (w.names l) n then true else w.used n },
    rw h refl,
    λ n. refl,
  );
  dropped = λ m n w. refl;
  sink_made = λ n w. refl;
  logger_made = λ n m w. refl;
  sink_added = λ n l k w. refl;
  level_set = λ n l m w. refl;
  sink_set = λ n k m w. refl;
  pattern_set = λ n l p w. refl;
  sink_pattern_kept = λ n k p w. refl;
}

abbrev none_yet : Logs
none_yet = record {
  handles = 0;
  names = λ l. [];
  sinks = λ l. 0;
  logger_levels = λ l. 0;
  sink_levels = λ k. 0;
  sink_patterns = λ k. [];
  used = λ n. false;
}

create-change_all-InStep_example :
    (m : Logger) × (u : Logs) × ((create logs (codes "a") (codes "f") warn (codes "%v")
          >>= change_all logs (level info ∷ pattern (codes "%t") ∷ []))
        none_yet
      ≡ done m u)
    × InStep logs views m u
unfolding create setup_logger logs update_logger level_number
create-change_all-InStep_example =
    create-change_all-InStep logs views logs-Sets (codes "a") (codes "f") warn (codes "%v")
      (level info ∷ pattern (codes "%t") ∷ []) _ none_yet _ refl

peer_logger_twice_example :
    (l : Logger) × (v : Logs) × (peer_logger logs 3 none_yet ≡ done l v)
    × ((u : Logs) × (peer_logger logs 3 v ≡ raised exception u))
    × Constructed (peer_logger logs 4) v
    × Constructed (destroy logs l >> peer_logger logs 3) v
peer_logger_twice_example =
    peer_logger_twice logs views logs-Registers 3 4 none_yet (omega arith) (omega arith)
      (λ e. omega arith) refl refl
