-- ===== src/Connector/McpServers.antt =====
-- connector/pocage/acp_client.py: `_normalize_mcp_servers` and `_normalize_permission_options`. A
-- server stands for what the constructors of `acp.schema` are called with.
use pocage.Prelude.{String, Option, none, some, List, [], ◌∷◌, ◌==◌, if◌then◌else◌}
use pocage.Json.Defs.{
  Value, Items, Fields, null, bool, nat, number, str, arr, obj, nil, item, end, field,
}
use pocage.Json.Access.{get, put, as_str, as_obj, nonempty_str}

-- a header of an HTTP server, or a variable of a server's environment
pub record NamedValue : Type 0 where
  pub name : String
  pub value : String

pub data McpServer : Type 0 where
  http_server : (name url : String) → (headers : List NamedValue) → McpServer
  stdio_server :
      (name command : String) → (args : List String) → (env : List NamedValue) → McpServer

-- for key, value in headers_raw.items(): …
unfoldable pub named_fields : Fields → List NamedValue
named_fields end = []
named_fields (field key (str value) fs) = record { name = key; value = value } ∷ named_fields fs
named_fields (field key null fs) = named_fields fs
named_fields (field key (bool b) fs) = named_fields fs
named_fields (field key (nat n) fs) = named_fields fs
named_fields (field key (number t) fs) = named_fields fs
named_fields (field key (arr vs) fs) = named_fields fs
named_fields (field key (obj gs) fs) = named_fields fs

abbrev pub add_named : Option String → Option String → List NamedValue → List NamedValue
add_named (some name) (some value) rest = record { name = name; value = value } ∷ rest
add_named _ _ rest = rest

-- for header in headers_raw: …
unfoldable pub named_items : Items → List NamedValue
named_items nil = []
named_items (item v vs) = elim (as_obj v) [
  | none ↦ named_items vs
  | some header ↦
      add_named (as_str (get header "name")) (as_str (get header "value")) (named_items vs)
]

-- the headers or the variables, given as a dict or as a list of dicts
unfoldable pub named_values : Value → List NamedValue
named_values (obj fs) = named_fields fs
named_values (arr vs) = named_items vs
named_values null = []
named_values (bool b) = []
named_values (nat n) = []
named_values (number t) = []
named_values (str s) = []

abbrev pub add_text : Option String → List String → List String
add_text none rest = rest
add_text (some s) rest = s ∷ rest

unfoldable pub text_items : Items → List String
text_items nil = []
text_items (item v vs) = add_text (as_str v) (text_items vs)

-- [arg for arg in args_raw if isinstance(arg, str)]
unfoldable pub text_args : Value → List String
text_args (arr vs) = text_items vs
text_args (obj fs) = []
text_args null = []
text_args (bool b) = []
text_args (nat n) = []
text_args (number t) = []
text_args (str s) = []

unfoldable pub http_entry : (name : String) → Fields → Option McpServer
http_entry name server = elim (nonempty_str (get server "url")) [
  | none ↦ none
  | some url ↦ some (http_server name url (named_values (get server "headers")))
]

unfoldable pub stdio_entry : (name : String) → Fields → Option McpServer
stdio_entry name server = elim (nonempty_str (get server "command")) [
  | none ↦ none
  | some command ↦
      some (
        stdio_server name command (text_args (get server "args")) (named_values (get server "env")))
]

abbrev pub entry_of_kind : Option String → Option String → Fields → Option McpServer
entry_of_kind none name server = none
entry_of_kind (some kind) none server = none
entry_of_kind (some kind) (some name) server =
    if kind == "http"
    then http_entry name server
    else if kind == "stdio"
    then stdio_entry name server
    else none

-- server["kind"], or else server["type"], where it is a text
unfoldable pub kind_of : Fields → Option String
kind_of server = elim (as_str (get server "kind")) [
  | none ↦ as_str (get server "type")
  | some kind ↦ some kind
]

-- one round of the loop
unfoldable pub server_entry : Value → Option McpServer
server_entry v = elim (as_obj v) [
  | none ↦ none
  | some server ↦ entry_of_kind (kind_of server) (nonempty_str (get server "name")) server
]

abbrev pub add_server : Option McpServer → List McpServer → List McpServer
add_server none rest = rest
add_server (some server) rest = server ∷ rest

unfoldable pub normalize_mcp_servers : List Value → List McpServer
normalize_mcp_servers [] = []
normalize_mcp_servers (server ∷ servers) =
    add_server (server_entry server) (normalize_mcp_servers servers)

-- the identifier of an option, under either spelling
unfoldable pub option_id_of : Fields → Option String
option_id_of option = elim (as_str (get option "optionId")) [
  | none ↦ as_str (get option "option_id")
  | some option_id ↦ some option_id
]

-- the dict of one option, dumped from the model of `acp.schema`
unfoldable pub normalize_permission_option : Fields → Fields
normalize_permission_option option = elim (option_id_of option) [
  | none ↦ option
  | some option_id ↦ put option "option_id" (str option_id)
]

unfoldable pub normalize_permission_options : List Fields → List Fields
normalize_permission_options [] = []
normalize_permission_options (option ∷ options) =
    normalize_permission_option option ∷ normalize_permission_options options
