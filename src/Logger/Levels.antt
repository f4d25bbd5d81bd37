-- ===== src/Logger/Levels.antt =====
-- The setters of a logger keep spdlog's logger and the console sink in step with the object.
use dpn.Prelude.{ℕ, ◌≡◌, refl, sym, ◌∙◌, inl, inr, arith, List, [], ◌∷◌, Bytes}
use mathlib.Core.Path.{subst}
use dpn.Exec.{Outcome-cases, >>=-done, Exec, done, pure, ◌>>=◌}
use dpn.Logger.{
  Spdlog, Logger, LogLevel, level_number, update_logger, setup_logger, create, set_pattern,
  set_log_level,
}
use dpn.Logger.Documented.{Views, Sets}

-- The calls of the setters.
pub data Change : Type 0 where
  level : LogLevel → Change
  pattern : Bytes → Change

module _ {W : Type 0} (spd : Spdlog W) where
  abbrev change : Change → Logger → Exec W Logger
  change (level l) = set_log_level spd l
  change (pattern p) = set_pattern spd p

  pub change_all : List Change → Logger → Exec W Logger
  change_all [] l = pure l
  change_all (c ∷ cs) l = change c l >>= change_all cs

  -- The object that the constructor makes.
  abbrev pub fresh_logger : Bytes → Bytes → LogLevel → Bytes → ℕ × ℕ → Logger
  fresh_logger name file n p made = record {
    name = name;
    log_pattern = p;
    log_file_name = file;
    log_level = n;
    logger = made.0;
    console_sink = made.1;
  }

  -- What a constructor that returned has done.
  created :
      (name file : Bytes) (n : LogLevel) (p : Bytes) (l : Logger) (w v : W)
      → create spd name file n p w ≡ done l v
      → (made : ℕ × ℕ) × (t : W) × (setup_logger spd name w ≡ done made t)
        × (l ≡ fresh_logger name file n p made)
        × (v ≡ update_logger spd (fresh_logger name file n p made) t)
  created name file n p l w v e = elim (Outcome-cases (setup_logger spd name w)) [
    | inl (made, t, run) ↦
        let made_run : create spd name file n p w
            ≡ done (fresh_logger name file n p made)
                (update_logger spd (fresh_logger name file n p made) t) =
          unfold create in >>=-done (setup_logger spd name) _ w run in
        (made, t, run, cc, cc)
    | inr (x, t, run) ↦ absurd (unfold create in ground (arith, e, run))
  ]

  module _ (view : Views W) where
    -- The levels and the pattern in use are those of the object.
    pub record InStep (l : Logger) (w : W) : Type 0 where
      pub logger_level : view.logger_level l.logger w ≡ level_number spd l.log_level
      pub sink_level : view.sink_level l.console_sink w ≡ level_number spd l.log_level
      pub sink_pattern : view.sink_pattern l.console_sink w ≡ l.log_pattern

    module _ (sets : Sets spd view) where
      update_logger-InStep : (l : Logger) (w : W) → InStep l (update_logger spd l w)
      unfolding update_logger
      update_logger-InStep l w = record {
        logger_level =
            sets.logger_level_logger_pattern l.logger l.logger l.log_pattern _
            ∙ sets.logger_level_pattern l.logger l.console_sink l.log_pattern _
            ∙ sets.logger_level_set l.logger (level_number spd l.log_level) _;
        sink_level =
            sets.sink_level_logger_pattern l.console_sink l.logger l.log_pattern _
            ∙ sets.sink_level_pattern l.console_sink l.console_sink l.log_pattern _
            ∙ sets.sink_level_apart l.console_sink l.logger (level_number spd l.log_level) _
            ∙ sets.sink_level_set l.console_sink (level_number spd l.log_level) w;
        sink_pattern = elim (sets.logger_pattern_set l.console_sink l.logger l.log_pattern _) [
          | inl is_set ↦ is_set
          | inr kept ↦ kept ∙ sets.sink_pattern_set l.console_sink l.log_pattern _
        ];
      }

      change-InStep :
          (c : Change) (l : Logger) (w : W)
          → (m : Logger) × (v : W) × (change c l w ≡ done m v) × InStep m v
      unfolding set_pattern set_log_level
      change-InStep (level n) l w =
          let m = record l { log_level = n } in
          (m, update_logger spd m w, refl, update_logger-InStep m w)
      change-InStep (pattern p) l w =
          let m = record l { log_pattern = p } in
          (m, update_logger spd m w, refl, update_logger-InStep m w)

      change_all-InStep :
          (cs : List Change) (l : Logger) (w : W)
          → InStep l w
          → (m : Logger) × (v : W) × (change_all cs l w ≡ done m v) × InStep m v
      unfolding change_all
      change_all-InStep [] l w i = (l, w, refl, i)
      change_all-InStep (c ∷ cs) l w i =
          let (m, v, run, j) = change-InStep c l w in
          let (n, u, rest, k) = change_all-InStep cs m v j in
          (n, u, >>=-done (change c l) (change_all cs) w run ∙ rest, k)

      -- Over spdlog as documented, a logger that was made, and changed by any sequence of its
      -- setters, is in step with spdlog: its own level is that of spdlog's logger and of the console
      -- sink, and its pattern is the sink's.
      pub create-change_all-InStep :
          (name file : Bytes) (n : LogLevel) (p : Bytes) (cs : List Change) (l : Logger) (w v : W)
          → create spd name file n p w ≡ done l v
          → (m : Logger) × (u : W) × ((create spd name file n p >>= change_all cs) w ≡ done m u)
            × InStep m u
      create-change_all-InStep name file n p cs l w v e =
          let (made, t, run, is_l, is_v) = created name file n p l w v e in
          let i : InStep l v =
            subst (λ u. InStep l u) (sym is_v)
              (subst (λ m. InStep m (update_logger spd (fresh_logger name file n p made) t))
                (sym is_l) (update_logger-InStep (fresh_logger name file n p made) t)) in
          let (m, u, rest, j) = change_all-InStep cs l v i in
          (m, u, >>=-done (create spd name file n p) (change_all cs) w e ∙ rest, j)
