-- ===== src/Logger/Registry.antt =====
-- The names of loggers: a logger has its name to itself from its construction to its destruction.
use dpn.Prelude.{
  ℕ, ◌^◌, ◌<◌, ◌≡◌, ◌≢◌, refl, sym, ap, ◌∙◌, inl, inr, true, false, Bytes, if◌then◌else◌,
  Bool-cases,
}
use dpn.Exec.{Exec, done, raised, exception, ok, ◌>>◌, >>=-done, >>=-raised}
use dpn.Names.{peer_id_to_hub_name, hub_name_to_peer_id}
use dpn.Names.RoundTrip.{hub_name-peer_id}
use dpn.Port.{same_name}
use dpn.Port.Links.{same_name_refl, same_name_iff}
use dpn.Logger.{
  Spdlog, Logger, LogLevel, update_logger, setup_logger, create, destroy, peer_logger, debug,
  default_file, default_pattern,
}
use dpn.Logger.Documented.{Views, Registers}
use dpn.Logger.Levels.{fresh_logger}

module _ {W : Type 0} where
  -- A constructor that returns.
  abbrev pub Constructed : Exec W Logger → W → Type 0
  Constructed make w = (l : Logger) × (v : W) × (make w ≡ done l v)

module _ {W : Type 0} (spd : Spdlog W) (view : Views W) (registers : Registers spd view) where
  update_logger-registered :
      (n : Bytes) (l : Logger) (w : W)
      → view.registered n (update_logger spd l w) ≡ view.registered n w
  unfolding update_logger
  update_logger-registered n l w =
      registers.pattern_set n l.logger l.log_pattern _
      ∙ registers.sink_pattern_kept n l.console_sink l.log_pattern _
      ∙ registers.level_set n l.logger _ _
      ∙ registers.sink_set n l.console_sink _ w

  -- The state in which the logger is registered.
  abbrev ready : Bytes → W → W
  ready name w =
      let made = spd.make_logger name (spd.make_sink w).1 in
      spd.add_sink made.0 (spd.make_sink w).0 made.1

  abbrev fresh_handle : Bytes → W → ℕ
  fresh_handle name w = (spd.make_logger name (spd.make_sink w).1).0

  ready_name : (name : Bytes) (w : W) → view.logger_name (fresh_handle name w) (ready name w) ≡ name
  ready_name name w = registers.named_sink _ _ _ ∙ registers.named name _

  ready-registered :
      (n name : Bytes) (w : W) → view.registered n (ready name w) ≡ view.registered n w
  ready-registered n name w =
      registers.sink_added n _ _ _ ∙ registers.logger_made n name _ ∙ registers.sink_made n w

  setup_taken :
      (name : Bytes) (w : W)
      → view.registered name w ≡ true
      → setup_logger spd name w ≡ raised exception (ready name w)
  unfolding setup_logger
  setup_taken name w h = >>=-raised (spd.register_logger (fresh_handle name w)) _ (ready name w) (
      registers.taken (fresh_handle name w) (ready name w) (
        ap (λ n. view.registered n (ready name w)) (ready_name name w)
        ∙ ready-registered name name w
        ∙ h))

  setup_free :
      (name : Bytes) (w : W)
      → view.registered name w ≡ false
      → (made : ℕ × ℕ) × (v : W) × (setup_logger spd name w ≡ done made v)
        × ((n : Bytes)
            → view.registered n v ≡ (if same_name name n then true else view.registered n w))
  unfolding setup_logger
  setup_free name w h =
      let (v, run, names) = registers.free (fresh_handle name w) (ready name w) (
        ap (λ n. view.registered n (ready name w)) (ready_name name w)
        ∙ ready-registered name name w
        ∙ h) in
      (
        (fresh_handle name w, (spd.make_sink w).0),
        v,
        >>=-done (spd.register_logger (fresh_handle name w)) _ (ready name w) run,
        λ n.
            names n
            ∙ ap (λ m. if same_name m n then true else view.registered n (ready name w))
                (ready_name name w)
            ∙ ap (λ b. if same_name name n then true else b) (ready-registered n name w),
      )

  -- Under a name that is taken a constructor throws; under another one it returns, and takes the name.
  create_taken :
      (name file : Bytes) (n : LogLevel) (p : Bytes) (w : W)
      → view.registered name w ≡ true
      → create spd name file n p w ≡ raised exception (ready name w)
  unfolding create
  create_taken name file n p w h = >>=-raised (setup_logger spd name) _ w (setup_taken name w h)

  create_free :
      (name file : Bytes) (n : LogLevel) (p : Bytes) (w : W)
      → view.registered name w ≡ false
      → (l : Logger) × (v : W) × (create spd name file n p w ≡ done l v)
        × (l.name ≡ name)
        × ((m : Bytes)
            → view.registered m v ≡ (if same_name name m then true else view.registered m w))
  unfolding create
  create_free name file n p w h =
      let (made, t, run, names) = setup_free name w h in
      let l = fresh_logger spd name file n p made in
      (
        l,
        update_logger spd l t,
        >>=-done (setup_logger spd name) _ w run,
        refl,
        λ m. update_logger-registered m l t ∙ names m,
      )

  same_peer_name :
      (a b : ℕ)
      → a < 2 ^ 16
      → b < 2 ^ 16
      → a ≢ b
      → same_name (peer_id_to_hub_name a) (peer_id_to_hub_name b) ≡ false
  same_peer_name a b h k ne =
      elim (Bool-cases (same_name (peer_id_to_hub_name a) (peer_id_to_hub_name b))) [
        | inr differs ↦ differs
        | inl same ↦
            let names = (same_name_iff (peer_id_to_hub_name a) (peer_id_to_hub_name b)).0 same in
            let ids : ok a ≡ ok b =
              sym (hub_name-peer_id a h) ∙ ap hub_name_to_peer_id names ∙ hub_name-peer_id b k in
            absurd (ne cc)
      ]

  -- Over spdlog as documented, for peers with different ids of 16 bits whose names are free: the first
  -- constructor gets its logger; after that one for a second peer of the same id throws, and one for a
  -- peer of the other id returns; after the first logger is destroyed, its id can be used again.
  pub peer_logger_twice :
      (a b : ℕ) (w : W)
      → a < 2 ^ 16
      → b < 2 ^ 16
      → a ≢ b
      → view.registered (peer_id_to_hub_name a) w ≡ false
      → view.registered (peer_id_to_hub_name b) w ≡ false
      → (l : Logger) × (v : W) × (peer_logger spd a w ≡ done l v)
        × ((u : W) × (peer_logger spd a v ≡ raised exception u))
        × Constructed (peer_logger spd b) v
        × Constructed (destroy spd l >> peer_logger spd a) v
  unfolding peer_logger destroy
  peer_logger_twice a b w h k ne free other =
      let name = peer_id_to_hub_name a in
      let other_name = peer_id_to_hub_name b in
      let (l, v, run, is_name, names) =
        create_free name default_file debug default_pattern w free in
      let taken =
        names name ∙ ap (λ c. if c then true else view.registered name w) (same_name_refl name) in
      let (m, u, second, _, _) = create_free other_name default_file debug default_pattern v (
        names other_name
        ∙ ap (λ c. if c then true else view.registered other_name w) (same_peer_name a b h k ne)
        ∙ other) in
      let (n, x, again, _, _) =
        create_free name default_file debug default_pattern (spd.drop l.name v) (
          registers.dropped l.name name v
          ∙ ap (λ m. if same_name m name then false else view.registered name v) is_name
          ∙ ap (λ c. if c then false else view.registered name v) (same_name_refl name)) in
      (
        l,
        v,
        run,
        (ready name v, create_taken name default_file debug default_pattern v taken),
        (m, u, second),
        (n, x, again),
      )
