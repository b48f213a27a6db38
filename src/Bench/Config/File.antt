-- ===== src/Bench/Config/File.antt =====
-- The rest of curp_client/config.go: the file that `Read` opens, and the text of its errors. What the scanner
-- finds in the file is an argument, with the error at which it gives up, and so is what `strings.Fields` and
-- `strings.ToLower` make of a line.
use Prim.Native.String.{◌++◌}
use curp.Kv.{GoError}
use curp.Bench.Config.{Formats, Config, ConfigError, read_lines}
use curp.Prelude.{String_discrete, String, ite, true, false, Option, none, some, List, map}

-- `os.Open` fails, or the scanner gives these lines and then ends, or gives up.
pub data File : Type 0 where
  no_file : String → File
  scanned : List String → GoError → File

pub data ReadError : Type 0 where
  of_file : String → ReadError
  of_line : ConfigError → ReadError

module _ (F : Formats) (fields : String → List String) where
  -- `&Config{}`
  abbrev pub zero_config : Config F
  zero_config = record {
    reqs = F.zero_int;
    run_time = F.zero_duration;
    writes = F.zero_int;
    conflicts = F.zero_int;
    command_size = F.zero_int;
    clones = F.zero_int;
    wait_closest = false;
    pipeline = false;
    syncs = F.zero_int;
    pendings = F.zero_int;
    key = F.zero_int;
  }

  lines_error : Option ConfigError → Option ReadError
  lines_error none = none
  lines_error (some e) = some (of_line e)

  -- `Read`. The error of the scanner is not asked for.
  unfoldable pub read : File → String → Config F × Option ReadError
  unfolding lines_error
  read (no_file err) alias = (zero_config, some (of_file err))
  read (scanned lines given_up) alias =
      let (c, e) = read_lines F alias zero_config true (map fields lines) in (c, lines_error e)

-- `if s != "" { s += "\n" }; s += "\t" + more`
abbrev joined : String → String → String
joined s more = ite (String_discrete s "") ("\t" ++ more) (s ++ "\n\t" ++ more)

-- The text of the field, and that with the error below it.
abbrev named : ConfigError → String
named e = ite (String_discrete e.field "") "" ("field: " ++ e.field ++ " --")

abbrev with_below : String → Option String → String
with_below s none = s
with_below s (some err) = joined s err

-- `Error()`
unfoldable pub error_text : ConfigError → String
error_text e =
    let s = with_below (named e) e.below in
    ite (String_discrete e.comment "") s (joined s e.comment)
