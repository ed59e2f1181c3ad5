-- ===== src/Build/Command.antt =====
-- `Command::new` and `build` of build/commands.rs: the text of a method.
use reql.Base.{Text, codes, text_eq, Bool, Option, none, some, [], ◌∷◌, ◌++◌, ◌>>=◌, if◌then◌else◌}
use reql.Build.Strings.{to_uppercase}
use reql.Build.Docs.{gen_docs}
use reql.Build.Config.{Entry, method_name, type_name}

abbrev indent : Text
indent = codes "\n                "

abbrev pub connect_text : Text → Text
connect_text docs =
    indent
    ++ (docs
        ++ codes
            "\n                pub fn connect<T: IntoArg>(&self, args: T) -> Result<Connection> {\n                    io::connect(self, args)\n                }\n            ")

abbrev pub expr_text : Text → Text
expr_text docs =
    indent
    ++ (docs
        ++ codes
            "\n                pub fn expr<T: IntoArg>(&self, args: T) -> Client {\n                    util::make_cmd(self, \"expr\", None, Some(args))\n                }\n            ")

-- A method without a parameter.
abbrev pub no_args_text : Text → Text → Text → Text
no_args_text docs name typ =
    indent
    ++ (docs
        ++ (codes "\n                pub fn "
            ++ (name
                ++ (codes
                      "(&self) -> Client {\n                    util::make_cmd::<Client>(self, \""
                    ++ (name
                        ++ (codes "\", Some("
                            ++ (typ ++ codes "), None)\n                }\n            ")))))))

-- A method with one.
abbrev pub args_text : Text → Text → Text → Text
args_text docs name typ =
    indent
    ++ (docs
        ++ (codes "\n                pub fn "
            ++ (name
                ++ (codes
                      "<T: IntoArg>(&self, args: T) -> Client {\n                    util::make_cmd(self, \""
                    ++ (name
                        ++ (codes "\", Some("
                            ++ (typ
                                ++ codes "), Some(args))\n                }\n            ")))))))

-- The method called `name` for the term type `typ`, from the two results of `gen_docs`.
abbrev pub tokens_of : Text → Text → Bool × Text → Text
tokens_of name typ (no_args, docs) =
    if text_eq name (codes "connect")
    then connect_text docs
    else if text_eq name (codes "expr")
    then expr_text docs
    else if no_args
    then no_args_text docs name typ
    else args_text docs name typ

-- `build` with the text of the command's file; an empty file is a panic.
unfoldable pub build : Entry → Text → Option Text
build e [] = none
build e (c ∷ cs) = some (
    tokens_of (method_name e) (codes "Type::" ++ to_uppercase (type_name e))
      (gen_docs e.name (c ∷ cs)))

-- `new`
abbrev pub new : (Text → Option Text) → Text → Entry → Option Text
new read dir e = read (dir ++ (codes "/" ++ (e.permalink ++ codes ".md"))) >>= λ docs. build e docs
