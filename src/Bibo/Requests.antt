-- ===== src/Bibo/Requests.antt =====
-- Midterm_HW3/biboServer.c: `help` and the chain of tests in `handle_client`. A response is framed as
-- its length and its bytes; it is given here by its bytes.
pub mod Answers
use advanced_c_language_proj.Base.{ℕ, Bool, List, [], ◌∷◌, ◌++◌, Option, none, some, if◌then◌else◌}
use advanced_c_language_proj.Base.Text.{Text, codes, str_eq, starts_with, next_token, decimal}
use advanced_c_language_proj.Bibo.ReadFile.{read_f}

-- The commands that `help` knows.
pub data Command : Type 0 where
  help list quit kill_server read_f_command write_f upload download : Command

-- The chain of tests in `help`.
unfoldable pub parse_command : Text → Option Command
parse_command argument =
    if str_eq argument (codes "help")
    then some help
    else (if str_eq argument (codes "list")
        then some list
        else (if str_eq argument (codes "quit")
            then some quit
            else (if str_eq argument (codes "killServer")
                then some kill_server
                else (if str_eq argument (codes "readF")
                    then some read_f_command
                    else (if str_eq argument (codes "writeF")
                        then some write_f
                        else (if str_eq argument (codes "upload")
                            then some upload
                            else (if str_eq argument (codes "download")
                                then some download
                                else none)))))))

unfoldable pub unknown_command : Text → Text
unknown_command argument =
    codes "Unknown command : '"
    ++ (argument ++ codes "'. Type 'help' to get a list of available commands.\n")

-- The second token of the message. Without one, the second `sprintf` overwrites the first.
-- `text` gives the help text of each command.
unfoldable pub help_message : (Command → Text) → Text → Text
help_message text message = elim (next_token b' ' message) [
  | none ↦ codes "Type 'help [command]' to get help on a specific command.\n"
  | some (command, rest) ↦ elim (next_token b' ' rest) [
    | none ↦ codes "Type 'help [command]' to get help on a specific command.\n"
    | some (argument, more) ↦ elim (parse_command argument) [
      | none ↦ unknown_command argument
      | some known ↦ text known
    ]
  ]
]

-- What serving one message comes to.
pub data Outcome : Type 0 where
  responds : Text → Outcome  -- the child goes on with its loop
  silent : Outcome  -- nothing was written, and the child goes on
  disconnects : Text → Outcome  -- the child writes a response, closes and exits
  kills_server : Outcome  -- SIGUSR2 to the server, and the child exits
  crashes : Outcome  -- `strlen(NULL)`

-- What the program meets outside: the help texts, the output of `ls` and the files.
pub record Outside : Type 0 where
  pub text : Command → Text
  pub ls : Text
  pub open_file : Text → Option Text

-- `list`: with no output at all the result is never allocated.
unfoldable pub list_files : Text → Outcome
list_files [] = crashes
list_files (c ∷ s) = responds (c ∷ s)

unfoldable pub read_file : (Text → Option Text) → Text → Outcome
read_file open_file message = elim (read_f open_file message) [
  | none ↦ silent
  | some r ↦ responds r
]

-- The body of the loop of `handle_client`, behind the read of a message.
unfoldable pub handle_message : Outside → ℕ → Text → Outcome
unfolding list_files read_file
handle_message out pid message =
    if str_eq message (codes "help")
    then responds (
        codes
          "Available commands: help, list, quit, killServer, readF, writeF, upload, download.\n")
    else (if starts_with (codes "help ") message
        then responds (help_message out.text message)
        else (if str_eq message (codes "list")
            then list_files out.ls
            else (if str_eq message (codes "quit")
                then disconnects (codes "Client " ++ (decimal pid ++ codes " has disconnected.\n"))
                else (if str_eq message (codes "killServer")
                    then kills_server
                    else (if starts_with (codes "readF ") message
                        then read_file out.open_file message
                        else (if str_eq message []
                            then responds (codes "Empty message sent to server")
                            else responds (codes "not-command")))))))
