-- ===== src/Log.antt =====
-- log/log.cpp: the levels of the log, and what Init reads from the command line. The logging library
-- has its own levels, and what it writes is not modelled.
use compute_web_app.Prelude.{
  Bool, true, false, List, [], ◌∷◌, ◌++◌, Option, none, some, is_empty, if◌then◌else◌, ◌≡◌, refl,
  ap, ◌∙◌,
}
use compute_web_app.Prelude.Text.{Text, codes, text_eq}
use compute_web_app.Dataset.{Files, write_file}

pub data LogLevel : Type 0 where
  trace debug info error fatal : LogLevel

-- The logging library's levels that the map has.
pub record Severities (S : Type 0) : Type 0 where
  pub verbose : S
  pub debug_severity : S
  pub info_severity : S
  pub error_severity : S
  pub fatal_severity : S

unfoldable pub level_map : {S : Type 0} → Severities S → LogLevel → S
level_map severities trace = severities.verbose
level_map severities debug = severities.debug_severity
level_map severities info = severities.info_severity
level_map severities error = severities.error_severity
level_map severities fatal = severities.fatal_severity

unfoldable pub level_option : Text → LogLevel → LogLevel
level_option argument level0 =
    let level1 = if text_eq argument (codes "-vv") then trace else level0 in
    let level2 = if text_eq argument (codes "-v") then debug else level1 in
    if text_eq argument (codes "-q") then fatal else level2

unfoldable pub file_option : Text → List Text → Text → Text
file_option argument [] filename = filename
file_option argument (value ∷ rest) filename =
    if text_eq argument (codes "--log-file") then value else filename

-- The loop over the arguments, from argv[1] on.
unfoldable pub log_options : List Text → LogLevel × Text → LogLevel × Text
unfolding level_option file_option
log_options [] o = o
log_options (argument ∷ rest) (level, filename) =
    log_options rest (level_option argument level, file_option argument rest filename)

-- What the two appenders were set up with, if they were: the highest level, and the file, which is
-- made empty.
pub record LogSetup (S : Type 0) : Type 0 where
  pub console : S
  pub file : Option (Text × S)

unfoldable pub init_level :
    {S : Type 0} → Severities S → Files → LogLevel → Text → LogSetup S × Files
unfolding level_map
init_level severities fs level filename =
    if is_empty filename
    then (record { console = level_map severities level; file = none }, fs)
    else (
      record {
        console = level_map severities level;
        file = some (filename, level_map severities trace);
      },
      write_file fs filename [],
    )

unfoldable pub init_log : {S : Type 0} → Severities S → Files → List Text → LogSetup S × Files
unfolding log_options init_level
init_log severities fs arguments =
    let (level, filename) = log_options arguments (info, []) in
    init_level severities fs level filename

-- The level that an argument stands for, if it does.
abbrev pub verbosity : Text → Option LogLevel
verbosity argument =
    if text_eq argument (codes "-q")
    then some fatal
    else if text_eq argument (codes "-v")
    then some debug
    else if text_eq argument (codes "-vv")
    then some trace
    else none

abbrev pub HaveNoVerbosity : List Text → Type 0
HaveNoVerbosity [] = Unit {0}
HaveNoVerbosity (t ∷ ts) = (verbosity t ≡ none) × HaveNoVerbosity ts

abbrev or_level : Option LogLevel → LogLevel → LogLevel
or_level (some level) old = level
or_level none old = old

level_option-verbosity :
    (argument : Text) (level : LogLevel)
    → level_option argument level ≡ or_level (verbosity argument) level
unfolding level_option
level_option-verbosity argument level =
    go (text_eq argument (codes "-q")) (text_eq argument (codes "-v"))
      (text_eq argument (codes "-vv"))
  where
    go :
        (q v vv : Bool)
        → (if q then fatal else (if v then debug else (if vv then trace else level)))
          ≡ or_level
              (if q
                then some fatal
                else (if v then some debug else (if vv then some trace else none)))
              level
    go true v vv = refl
    go false true vv = refl
    go false false true = refl
    go false false false = refl

log_options-none :
    (ts : List Text) (level : LogLevel) (filename : Text)
    → HaveNoVerbosity ts
    → (log_options ts (level, filename)).0 ≡ level
unfolding log_options
log_options-none [] level filename h = refl
log_options-none (t ∷ ts) level filename h =
    log_options-none ts (level_option t level) (file_option t ts filename) h.1
    ∙ level_option-verbosity t level
    ∙ ap (λ v. or_level v level) h.0

-- The last of the arguments `-vv`, `-v` and `-q` decides the level of the log, wherever it stands and
-- whatever the log's file is.
pub log_options-last :
    (xs ys : List Text) (flag : Text) (level old : LogLevel) (filename : Text)
    → verbosity flag ≡ some level
    → HaveNoVerbosity ys
    → (log_options (xs ++ flag ∷ ys) (old, filename)).0 ≡ level
unfolding log_options
log_options-last [] ys flag level old filename h none_left =
    log_options-none ys (level_option flag old) (file_option flag ys filename) none_left
    ∙ level_option-verbosity flag old
    ∙ ap (λ v. or_level v old) h
log_options-last (x ∷ xs) ys flag level old filename h none_left =
    log_options-last xs ys flag level (level_option x old)
      (file_option x (xs ++ flag ∷ ys) filename) h none_left
