-- ===== src/Logger.antt =====
-- dpn/util/inc/DPNLogger.hpp, with logging enabled: a named logger of the spdlog library and its console
-- sink. spdlog is not part of the repository: its calls are a parameter, over the state `W` of the
-- library. A sink and a spdlog logger are numbers. The file sink is never made.
pub mod Documented
pub mod Levels
pub mod Registry
use dpn.Prelude.{ℕ, suc, ◌≡◌, Bytes, List, [], ◌∷◌}
use dpn.Exec.{Exec, done, pure, modify, ◌>>=◌, ◌>>◌}
use dpn.Text.{codes}
use dpn.Names.{peer_id_to_hub_name}

pub record Spdlog (W : Type 0) : Type 0 where
  -- The SPDLOG_LEVEL_ constants.
  pub level_trace : ℕ
  pub level_debug : ℕ
  pub level_info : ℕ
  pub level_warn : ℕ
  pub level_error : ℕ
  pub level_critical : ℕ
  pub level_off : ℕ
  -- std::make_shared of a sink, and of a logger with a name.
  pub make_sink : W → ℕ × W
  pub make_logger : Bytes → W → ℕ × W
  -- sinks().push_back: the logger and the sink.
  pub add_sink : ℕ → ℕ → W → W
  -- It throws when there is a logger under the name.
  pub register_logger : ℕ → Exec W (Unit {0})
  pub drop : Bytes → W → W
  pub sink_set_level : ℕ → ℕ → W → W
  pub sink_set_pattern : ℕ → Bytes → W → W
  pub logger_set_level : ℕ → ℕ → W → W
  pub logger_set_pattern : ℕ → Bytes → W → W

pub data LogLevel : Type 0 where
  trace debug info warn err critical off n_levels : LogLevel

pub record Logger : Type 0 where
  pub name : Bytes
  pub log_pattern : Bytes
  pub log_file_name : Bytes
  pub log_level : LogLevel
  pub logger : ℕ
  pub console_sink : ℕ

abbrev pub default_file : Bytes
default_file = codes "log/log.txt"

abbrev pub default_pattern : Bytes
default_pattern = codes "%E.%f [%^%l%$]\t(%s:%#)\t<%!> {%t} %v"

module _ {W : Type 0} (spd : Spdlog W) where
  -- `static_cast<spdlog::level::level_enum>`
  unfoldable pub level_number : LogLevel → ℕ
  level_number trace = spd.level_trace
  level_number debug = spd.level_debug
  level_number info = spd.level_info
  level_number warn = spd.level_warn
  level_number err = spd.level_error
  level_number critical = spd.level_critical
  level_number off = spd.level_off
  level_number n_levels = suc spd.level_off

  unfoldable pub update_logger : Logger → W → W
  unfolding level_number
  update_logger l w =
      let level = level_number l.log_level in
      let leveled =
        spd.logger_set_level l.logger level (spd.sink_set_level l.console_sink level w) in
      spd.logger_set_pattern l.logger l.log_pattern
        (spd.sink_set_pattern l.console_sink l.log_pattern leveled)

  -- The spdlog logger and the sink.
  unfoldable pub setup_logger : Bytes → Exec W (ℕ × ℕ)
  setup_logger name w =
      let (sink, with_sink) = spd.make_sink w in
      let (logger, with_logger) = spd.make_logger name with_sink in
      (spd.register_logger logger >> pure (logger, sink)) (spd.add_sink logger sink with_logger)

  -- The constructor.
  unfoldable pub create : Bytes → Bytes → LogLevel → Bytes → Exec W Logger
  create name file_name level pattern = do
    made ← setup_logger name
    logger ← pure (record {
      name = name;
      log_pattern = pattern;
      log_file_name = file_name;
      log_level = level;
      logger = made.0;
      console_sink = made.1;
    })
    modify (update_logger logger)
    pure logger

  unfoldable pub set_pattern : Bytes → Logger → Exec W Logger
  set_pattern pattern l =
      modify (update_logger (record l { log_pattern = pattern }))
      >> pure (record l { log_pattern = pattern })

  unfoldable pub set_log_level : LogLevel → Logger → Exec W Logger
  set_log_level level l =
      modify (update_logger (record l { log_level = level }))
      >> pure (record l { log_level = level })

  unfoldable pub close : Logger → Exec W (Unit {0})
  close l = modify (spd.drop l.name)

  -- The destructor.
  unfoldable pub destroy : Logger → Exec W (Unit {0})
  unfolding close
  destroy l = close l

  -- The static member of SYSLogger.
  unfoldable pub sys_logger : Exec W Logger
  sys_logger = create (codes "dpn_sys_logger") (codes "logs/log.txt") debug default_pattern

  -- The member `logger_` of a peer, as the peer's constructor makes it.
  unfoldable pub peer_logger : ℕ → Exec W Logger
  peer_logger id = create (peer_id_to_hub_name id) default_file debug default_pattern
