-- ===== src/Logging.antt =====
-- internal/logging/logger.go: the logger and its levels. `L` is the type of the zap library's loggers.
pub mod Once
use cribe.Exec.{Exec, ok, pure, attempt, ◌>>=◌}
use cribe.Prelude.{
  ℕ, Bool, false, Option, none, some, List, [], ◌∷◌, String, ◌≡◌, refl, ◌==◌, if◌then◌else◌,
}

pub data Level : Type 0 where
  debug_level info_level warn_level error_level dpanic_level panic_level fatal_level : Level

unfoldable pub convert_level : String → Level
convert_level level =
    if level == "debug"
    then debug_level
    else if level == "error"
    then error_level
    else if level == "info"
    then info_level
    else if level == "fatal"
    then fatal_level
    else if level == "panic"
    then panic_level
    else if level == "dpanic"
    then dpanic_level
    else if level == "warn"
    then warn_level
    else error_level

-- The encoders that zapcore offers and the logger names.
pub data Encoder : Type 0 where
  lowercase_level epoch_time seconds_duration short_caller : Encoder

pub record EncoderConfig : Type 0 where
  pub time_key : String
  pub level_key : String
  pub name_key : String
  pub caller_key : String
  pub function_key : String
  pub message_key : String
  pub stacktrace_key : String
  pub line_ending : String
  pub encode_level : Encoder
  pub encode_time : Encoder
  pub encode_duration : Encoder
  pub encode_caller : Encoder

-- zap.Config, as far as it is filled in
pub record ZapConfig : Type 0 where
  pub level : Level
  pub development : Bool
  pub sampling_initial : ℕ
  pub sampling_thereafter : ℕ
  pub encoding : String
  pub encoder_config : EncoderConfig
  pub output_paths : List String
  pub error_output_paths : List String

-- What the program calls of zap.
pub record Zap (L S : Type 0) : Type 0 where
  pub omit_key : String
  pub default_line_ending : String
  pub build : ZapConfig → Exec S L
  pub new_nop : L

abbrev output_stderr : List String
output_stderr = "stderr" ∷ []

-- The variable `defaultLogger`, which is nil until `defaultLoggerOnce` has run, and what is outside.
pub record LogState (L S : Type 0) : Type 0 where
  pub default : Option L
  pub outside : S

module _ {L S : Type 0} (zap : Zap L S) where
  unfoldable pub encoder_config : EncoderConfig
  encoder_config = record {
    time_key = "ts";
    level_key = "level";
    name_key = "logger";
    caller_key = "caller";
    function_key = zap.omit_key;
    message_key = "msg";
    stacktrace_key = "stacktrace";
    line_ending = zap.default_line_ending;
    encode_level = lowercase_level;
    encode_time = epoch_time;
    encode_duration = seconds_duration;
    encode_caller = short_caller;
  }

  -- A configuration that cannot be built gives a logger that does nothing.
  unfoldable pub new_logger : String → Exec S L
  unfolding convert_level encoder_config
  new_logger level =
      attempt
        (zap.build (record {
          level = convert_level level;
          development = false;
          sampling_initial = 250;
          sampling_thereafter = 250;
          encoding = "json";
          encoder_config = encoder_config;
          output_paths = output_stderr;
          error_output_paths = output_stderr;
        }))
        (λ e. pure zap.new_nop) pure

  abbrev outside : Exec S L → Exec (LogState L S) L
  outside m s = let (r, t) = m s.outside in (r, record s { outside = t })

  abbrev keep : L → Exec (LogState L S) L
  keep logger s = (ok logger, record s { default = some logger })

  abbrev once : Option L → Exec (LogState L S) L
  once (some logger) = pure logger
  once none = outside (new_logger "") >>= keep

  unfoldable pub default_logger : Exec (LogState L S) L
  unfolding new_logger
  default_logger s = once s.default s

  -- A context is the value under `loggerKey`, where it is a logger.
  unfoldable pub with_logger : Option L → L → Option L
  with_logger ctx logger = some logger

  unfoldable pub from_context : Option L → Exec (LogState L S) L
  unfolding default_logger
  from_context (some logger) = pure logger
  from_context none = default_logger

warn_test : convert_level "warn" ≡ warn_level
unfolding convert_level
warn_test = refl

-- A name of no level
unknown_test : convert_level "trace" ≡ error_level
unfolding convert_level
unknown_test = refl
