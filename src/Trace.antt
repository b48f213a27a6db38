-- ===== src/Trace.antt =====
-- curp/trace/log.go: what a trace prints. The clock, and the text that `Sprintf` makes of the format and its
-- arguments, are arguments.
use Prim.Native.String.{◌++◌}
use curp.Prelude.{if◌then◌else◌, leb, ℕ, String, List, [], ◌∷◌}

pub data LogTopic : Type 0 where
  client commit error info leader vote follower fast slow log term warn : LogTopic

abbrev pub topic_text : LogTopic → String
topic_text client = "CLNT"
topic_text commit = "CMIT"
topic_text error = "ERRO"
topic_text info = "INFO"
topic_text leader = "LEAD"
topic_text vote = "VOTE"
topic_text follower = "FOLW"
topic_text fast = "FAST"
topic_text slow = "SLOW"
topic_text log = "LOG1"
topic_text term = "TERM"
topic_text warn = "WARN"

abbrev pub debug1 : ℕ
debug1 = 0

-- `Trace`: the lines that it gives to the logger.
unfoldable pub trace : (itoa : ℕ → String) (now : String) → LogTopic → ℕ → String → List String
trace itoa now topic id message =
    if leb 1 debug1
    then ("[" ++ now ++ "] " ++ topic_text topic ++ " [" ++ itoa id ++ "] " ++ message) ∷ []
    else []
