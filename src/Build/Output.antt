-- ===== src/Build/Output.antt =====
-- `Commands::generate` of build/commands.rs and `main` of build/main.rs: the text of
-- src/commands/mod.rs. The files that are read are given by a function of the path, `none` where a
-- file cannot be read.
use reql.Base.{Text, codes, join, Option, some, List, [], ◌∷◌, ◌++◌, ◌>>=◌}
use reql.Build.Config.{Entry, Section, menu}
use reql.Build.Command.{new}

abbrev header_lines : List Text
header_lines =
    codes ""
    ∷ codes "            // AUTO GENERATED"
    ∷ codes
        "            // Manual changes made to this file will be overwritten by the build script."
    ∷ codes "            // Edit `build/commands.rs` instead..."
    ∷ codes "            // @generated"
    ∷ codes ""
    ∷ codes "            mod io;"
    ∷ codes "            mod util;"
    ∷ codes "            mod args;"
    ∷ codes ""
    ∷ codes "            use Connection;"
    ∷ codes "            use {Client, IntoArg, Result};"
    ∷ codes "            use slog::Logger;"
    ∷ codes "            use ql2::proto::{Term, Term_TermType as Type};"
    ∷ codes "        "
    ∷ []

abbrev begin_lines : List Text
begin_lines = codes "" ∷ codes "            " ∷ []

abbrev start_lines : List Text
start_lines =
    codes ""
    ∷ codes "            impl Client {"
    ∷ codes ""
    ∷ codes "                /// Create a new ReQL client"
    ∷ codes "                ///"
    ∷ codes
        "                /// By convention, the variable binding holding a ReQL client is called `r`."
    ∷ codes "                ///"
    ∷ codes "                /// __Example__: Create your client."
    ∷ codes "                ///"
    ∷ codes "                /// ```reql"
    ∷ codes "                /// let r = Client::new();"
    ∷ codes "                /// ```"
    ∷ codes ""
    ∷ codes "                pub fn new() -> Client {"
    ∷ codes "                    util::new_client()"
    ∷ codes "                }"
    ∷ codes ""
    ∷ codes "                #[doc(hidden)]"
    ∷ codes "                pub fn set_term(&mut self, term: Result<Term>) {"
    ∷ codes "                    self.term = term;"
    ∷ codes "                }"
    ∷ codes ""
    ∷ codes "                #[doc(hidden)]"
    ∷ codes "                pub fn term(&self) -> Result<&Term> {"
    ∷ codes "                    match self.term {"
    ∷ codes "                        Ok(ref term) => Ok(term),"
    ∷ codes "                        Err(ref error) => Err(error.clone()),"
    ∷ codes "                    }"
    ∷ codes "                }"
    ∷ codes ""
    ∷ codes "                /// Override the current logger"
    ∷ codes "                ///"
    ∷ codes
        "                /// Logging is very useful for tracking down bugs. The logger is typically"
    ∷ codes
        "                /// set up when creating a client. We provide it as a separate method so you"
    ∷ codes
        "                /// can activate or deactivate logging whenever you want. For example you"
    ∷ codes
        "                /// can log only a single command or a few ones by activating a logger just"
    ∷ codes
        "                /// before the first command you want to log and then deactivating soon after"
    ∷ codes "                /// the last command you want to log."
    ∷ codes "                ///"
    ∷ codes "                /// __Example__: Override the default client logger."
    ∷ codes "                ///"
    ∷ codes "                /// ```reql"
    ∷ codes "                /// # extern crate slog_term;"
    ∷ codes "                /// # #[macro_use] extern crate slog;"
    ∷ codes "                /// # use slog::DrainExt;"
    ∷ codes "                /// # let drain = slog_term::streamer().async().compact().build();"
    ∷ codes "                /// # let logger = slog::Logger::root(drain.fuse(), o!());"
    ∷ codes "                /// let r = Client::new().with_logger(logger);"
    ∷ codes "                /// ```"
    ∷ codes "                ///"
    ∷ codes
        "                /// See [examples/logging.rs] for an example of setting up an [slog](https://docs.rs/slog) `logger`."
    ∷ codes "                ///"
    ∷ codes
        "                /// [examples/logging.rs]: https://github.com/rust-rethinkdb/reql/blob/master/examples/logging.rs"
    ∷ codes ""
    ∷ codes "                pub fn with_logger(&self, logger: Logger) -> Client {"
    ∷ codes "                    util::with_logger(self, logger)"
    ∷ codes "                }"
    ∷ codes ""
    ∷ codes "                /// Specify optional arguments to a ReQL command"
    ∷ codes "                ///"
    ∷ codes
        "                /// Normally, you should use the `args!()` macro to pass arguments to a command that"
    ∷ codes
        "                /// also takes optional arguments. If the command takes at least one argument, you"
    ∷ codes
        "                /// don't need to call `with_args`. However, some commands like [delete](struct.Client.html#method.delete)"
    ∷ codes
        "                /// do not have any required arguments but yet they have optional ones. That's when `with_args` comes in."
    ∷ codes "                ///"
    ∷ codes
        "                /// __Example__: Delete all documents from the table `comments` without waiting for the operation to be flushed to"
    ∷ codes "                /// disk."
    ∷ codes "                ///"
    ∷ codes "                /// ```rust"
    ∷ codes "                /// # #![allow(unused_must_use)]"
    ∷ codes "                /// # #[macro_use] extern crate reql;"
    ∷ codes "                /// # fn main() {"
    ∷ codes "                /// # use reql::Client;"
    ∷ codes "                /// # let r = Client::new();"
    ∷ codes
        "                /// r.table(\"comments\").delete().with_args(args!({durability: \"soft\"}));"
    ∷ codes "                /// # }"
    ∷ codes "                /// ```"
    ∷ codes ""
    ∷ codes "                pub fn with_args<T: IntoArg>(&self, args: T) -> Client {"
    ∷ codes "                    util::with_args(self, args)"
    ∷ codes "                }"
    ∷ codes ""
    ∷ codes "                "
    ∷ []

abbrev end_lines : List Text
end_lines = codes "" ∷ codes "            }" ∷ codes "        " ∷ []

abbrev text_of : List Text → Text
text_of ls = join (codes "\n") ls

-- `header`
abbrev pub header : Text
header = text_of header_lines

-- `generate`
unfoldable pub generate : List Text → Text
generate commands =
    text_of begin_lines
    ++ (header ++ (text_of start_lines ++ (join (codes "\n") commands ++ text_of end_lines)))

module _ (read : Text → Option Text) (docs_dir : Text) where
  abbrev pub directory_of : Entry → Text
  directory_of e = docs_dir ++ (codes "/" ++ e.section)

  -- The commands of the menu, one after the other.
  unfoldable pub new_commands : List Entry → Option (List Text)
  new_commands [] = some []
  new_commands (e ∷ es) = do
    cmd ← new read (directory_of e) e
    cmds ← new_commands es
    some (cmd ∷ cmds)

  -- `main` on the sections of the menu.
  unfoldable pub main : List Section → Option Text
  main ss = do cmds ← new_commands (menu ss); some (generate cmds)
