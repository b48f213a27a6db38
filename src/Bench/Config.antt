-- ===== src/Bench/Config.antt =====
-- curp_client/config.go: the reader of the client's configuration. A line is given as the words that
-- `strings.Fields(strings.ToLower(line))` finds in it. The number formats of strconv and time are
-- parameters. The variable `readingClients` is written and never read, and is left out.
pub mod File
use text.Mathlib.Text.{starts_with}
use mathlib.Core.Bool.{decide}
use curp.Prelude.{
  if◌then◌else◌, String_discrete, All, String, ◌≡◌, refl, ◌≢◌, ite, Bool, true, false, Option, none,
  some, List, [], ◌∷◌, ◌++◌, arith,
}

pub record Formats : Type 1 where
  pub Int : Type 0
  pub Duration : Type 0
  pub zero_int : Int
  pub zero_duration : Duration
  pub atoi : String → Int × Option String
  pub parse_bool : String → Bool × Option String
  pub parse_duration : String → Duration × Option String
  -- `strings.Split(word, ":")[0]`
  pub before_colon : String → String

-- `Error`: the field, the comment, and the error below it.
pub record ConfigError : Type 0 where
  pub field : String
  pub comment : String
  pub below : Option String

decide_no {ℓ} : {P : Type ℓ} (d : Dec P) → ¬ P → decide d ≡ false
unfolding decide
decide_no (yes p) n = absurd (n p)
decide_no (no _) n = refl

-- `expect`: the value, and the error beside it.
unfoldable pub expect {ℓ} :
    {A : Type ℓ} → List String → (String → A × Option String) → A → A × Option ConfigError
expect [] f default =
    (default, some (record { field = ""; comment = "Missing field"; below = none }))
expect (w ∷ []) f default =
    (default, some (record { field = w; comment = "Missing argument"; below = none }))
expect (w ∷ arg ∷ ws) f default =
    if starts_with arg "//"
    then (default, some (record { field = w; comment = "Missing argument"; below = none }))
    else (let (i, err) = f arg in
        (
          i,
          elim err [
            | none ↦ none
            | some e ↦ some (record { field = w; comment = "Invalid argument"; below = some e })
          ],
        ))

module _ (F : Formats) where
  pub record Config : Type 0 where
    pub reqs : F.Int
    pub run_time : F.Duration
    pub writes : F.Int
    pub conflicts : F.Int
    pub command_size : F.Int
    pub clones : F.Int
    pub wait_closest : Bool
    pub pipeline : Bool
    pub syncs : F.Int
    pub pendings : F.Int
    pub key : F.Int

  -- `none` is no duration; anything else is for `time.ParseDuration`.
  duration : String → F.Duration × Option String
  duration s = ite (String_discrete s "none") (F.zero_duration, none) (F.parse_duration s)

  expect_int : List String → F.Int × Option ConfigError
  expect_int ws = expect ws F.atoi F.zero_int

  expect_bool : List String → Bool × Option ConfigError
  expect_bool ws = expect ws F.parse_bool false

  expect_duration : List String → F.Duration × Option ConfigError
  unfolding duration
  expect_duration ws = expect ws duration F.zero_duration

  -- The `switch` over the names of the settings, of which "commandSize" cannot stand in a lower case line.
  unfoldable pub set_field : Config → List String → String → Config × Option ConfigError
  unfolding expect_int expect_bool expect_duration
  set_field c ws name =
      ite (String_discrete name "reqs") (let (v, e) = expect_int ws in (record c { reqs = v }, e)) (
        ite (String_discrete name "writes")
          (let (v, e) = expect_int ws in (record c { writes = v }, e))
          (ite (String_discrete name "conflicts")
            (let (v, e) = expect_int ws in (record c { conflicts = v }, e))
            (ite (String_discrete name "commandSize")
              (let (v, e) = expect_int ws in (record c { command_size = v }, e))
              (ite (String_discrete name "clones")
                (let (v, e) = expect_int ws in (record c { clones = v }, e))
                (ite (String_discrete name "runtime")
                  (let (v, e) = expect_duration ws in (record c { run_time = v }, e))
                  (ite (String_discrete name "pipeline")
                    (let (v, e) = expect_bool ws in (record c { pipeline = v }, e))
                    (ite (String_discrete name "pendings")
                      (let (v, e) = expect_int ws in (record c { pendings = v }, e))
                      (ite (String_discrete name "key")
                        (let (v, e) = expect_int ws in (record c { key = v }, e))
                        (ite (String_discrete name "commandsize")
                          (let (v, e) = expect_int ws in (record c { command_size = v }, e))
                          (c, none))))))))))

  -- How the loop goes on after a line: with this configuration and `apply`, or with an error.
  pub data Line : Type 0 where
    goes : Config → Bool → Line
    stops : Config → ConfigError → Line

  -- `len(words) < 4 || words[2] != "to"`, and the comparison of `words[3]`; the words are those after
  -- "-- apply".
  apply_to : String → Config → List String → Line
  apply_to alias c (w2 ∷ w3 ∷ ws) =
      ite (String_discrete w2 "to") (goes c (decide (String_discrete w3 alias)))
        (stops c (record { field = "-- Apply"; comment = "Missing argument"; below = none }))
  apply_to alias c _ =
      stops c (record { field = "-- Apply"; comment = "Missing argument"; below = none })

  -- A line that starts with "--"; the words are those after it.
  header : String → Config → List String → Line
  unfolding apply_to
  header alias c [] = stops c (record {
    field = "";
    comment = "expecting [Replicas | Clients | Master | Apply | Proxy] after --";
    below = none;
  })
  header alias c (w1 ∷ ws) = ite (String_discrete w1 "apply") (apply_to alias c ws) (goes c true)

  setting : Config × Option ConfigError → Line
  setting (c, none) = goes c true
  setting (c, some e) = stops c e

  -- The body of the loop of `Read`.
  unfoldable pub read_line : String → Config → Bool → List String → Line
  unfolding header setting set_field
  read_line alias c apply [] = goes c apply
  read_line alias c apply (w ∷ ws) = ite (String_discrete w "//") (goes c apply) (
      ite (String_discrete w "--") (header alias c ws)
        (if apply then setting (set_field c (w ∷ ws) (F.before_colon w)) else goes c apply))

  -- The loop of `Read`.
  unfoldable pub read_lines :
      String → Config → Bool → List (List String) → Config × Option ConfigError
  read_lines alias c apply [] = (c, none)
  read_lines alias c apply (line ∷ lines) = elim (read_line alias c apply line) [
    | goes d apply' ↦ read_lines alias d apply' lines
    | stops d e ↦ (d, some e)
  ]

  -- A line that opens no section.
  abbrev pub InSection : List String → Type 0
  InSection [] = Unit
  InSection (w ∷ ws) = w ≢ "--"

  skips :
      (alias : String) (c : Config) (section more : List (List String))
      → All InSection section
      → read_lines alias c false (section ++ more) ≡ read_lines alias c false more
  unfolding read_lines read_line
  skips alias c [] more h = refl
  skips alias c ([] ∷ section) more h = skips alias c section more h.1
  skips alias c ((w ∷ ws) ∷ section) more h = ground (arith, skips alias c section more h.1)

  apply_line :
      (alias other : String) (c : Config) (apply : Bool) (ws : List String)
      → read_line alias c apply ("--" ∷ "apply" ∷ "to" ∷ other ∷ ws)
        ≡ goes c (decide (String_discrete other alias))
  unfolding read_line String_discrete
  apply_line alias other c apply ws = refl

  -- The lines of a section that applies to another alias have no effect, whatever they hold: reading
  -- goes on behind them with the configuration that there was before the section.
  pub read_lines-other_section :
      (alias other : String) (c : Config) (apply : Bool) (ws : List String)
      (section more : List (List String))
      → other ≢ alias
      → All InSection section
      → read_lines alias c apply (("--" ∷ "apply" ∷ "to" ∷ other ∷ ws) ∷ section ++ more)
        ≡ read_lines alias c false more
  unfolding read_lines
  read_lines-other_section alias other c apply ws section more ne h = ground (
    arith,
    apply_line alias other c apply ws,
    decide_no (String_discrete other alias) ne,
    skips alias c section more h,
  )
