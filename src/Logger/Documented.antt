-- ===== src/Logger/Documented.antt =====
-- What the documentation of spdlog says of the calls that dpn's Logger makes.
use dpn.Prelude.{ℕ, ◌≡◌, ◌⊎◌, Bool, true, false, Bytes, if◌then◌else◌}
use dpn.Exec.{done, raised, exception}
use dpn.Port.{same_name}
use dpn.Logger.{Spdlog}

-- What can be seen of the library's state.
pub record Views (W : Type 0) : Type 0 where
  pub logger_level : ℕ → W → ℕ
  pub sink_level : ℕ → W → ℕ
  pub sink_pattern : ℕ → W → Bytes
  pub logger_name : ℕ → W → Bytes
  pub registered : Bytes → W → Bool

module _ {W : Type 0} (spd : Spdlog W) (view : Views W) where
  -- A level or a pattern that is set can be read. A logger hands its pattern to those sinks that it has.
  pub record Sets : Type 0 where
    pub sink_level_set : (k n : ℕ) (w : W) → view.sink_level k (spd.sink_set_level k n w) ≡ n
    pub logger_level_set : (l n : ℕ) (w : W) → view.logger_level l (spd.logger_set_level l n w) ≡ n
    pub sink_pattern_set :
        (k : ℕ) (p : Bytes) (w : W) → view.sink_pattern k (spd.sink_set_pattern k p w) ≡ p
    pub logger_pattern_set :
        (k l : ℕ) (p : Bytes) (w : W)
        → (view.sink_pattern k (spd.logger_set_pattern l p w) ≡ p)
          ⊎ (view.sink_pattern k (spd.logger_set_pattern l p w) ≡ view.sink_pattern k w)
    pub sink_level_apart :
        (k l n : ℕ) (w : W) → view.sink_level k (spd.logger_set_level l n w) ≡ view.sink_level k w
    pub sink_level_pattern :
        (k j : ℕ) (p : Bytes) (w : W)
        → view.sink_level k (spd.sink_set_pattern j p w) ≡ view.sink_level k w
    pub sink_level_logger_pattern :
        (k l : ℕ) (p : Bytes) (w : W)
        → view.sink_level k (spd.logger_set_pattern l p w) ≡ view.sink_level k w
    pub logger_level_pattern :
        (l k : ℕ) (p : Bytes) (w : W)
        → view.logger_level l (spd.sink_set_pattern k p w) ≡ view.logger_level l w
    pub logger_level_logger_pattern :
        (l j : ℕ) (p : Bytes) (w : W)
        → view.logger_level l (spd.logger_set_pattern j p w) ≡ view.logger_level l w

  -- Only a registration and a drop change which names are taken.
  pub record Registers : Type 0 where
    pub named :
        (n : Bytes) (w : W) → view.logger_name (spd.make_logger n w).0 (spd.make_logger n w).1 ≡ n
    pub named_sink :
        (l k : ℕ) (w : W) → view.logger_name l (spd.add_sink l k w) ≡ view.logger_name l w
    pub taken :
        (l : ℕ) (w : W)
        → view.registered (view.logger_name l w) w ≡ true
        → spd.register_logger l w ≡ raised exception w
    pub free :
        (l : ℕ) (w : W)
        → view.registered (view.logger_name l w) w ≡ false
        → (v : W) × (spd.register_logger l w ≡ done tt v)
          × ((n : Bytes)
              → view.registered n v
                ≡ (if same_name (view.logger_name l w) n then true else view.registered n w))
    pub dropped :
        (m n : Bytes) (w : W)
        → view.registered n (spd.drop m w) ≡ (if same_name m n then false else view.registered n w)
    pub sink_made :
        (n : Bytes) (w : W) → view.registered n (spd.make_sink w).1 ≡ view.registered n w
    pub logger_made :
        (n m : Bytes) (w : W) → view.registered n (spd.make_logger m w).1 ≡ view.registered n w
    pub sink_added :
        (n : Bytes) (l k : ℕ) (w : W) → view.registered n (spd.add_sink l k w) ≡ view.registered n w
    pub level_set :
        (n : Bytes) (l m : ℕ) (w : W)
        → view.registered n (spd.logger_set_level l m w) ≡ view.registered n w
    pub sink_set :
        (n : Bytes) (k m : ℕ) (w : W)
        → view.registered n (spd.sink_set_level k m w) ≡ view.registered n w
    pub pattern_set :
        (n : Bytes) (l : ℕ) (p : Bytes) (w : W)
        → view.registered n (spd.logger_set_pattern l p w) ≡ view.registered n w
    pub sink_pattern_kept :
        (n : Bytes) (k : ℕ) (p : Bytes) (w : W)
        → view.registered n (spd.sink_set_pattern k p w) ≡ view.registered n w
