-- ===== src/Connector/McpServersRead.antt =====
-- connector/pocage/acp_client.py: what `_normalize_mcp_servers` reads from dicts that stand for servers.
use pocage.Prelude.{String, ◌≡◌, refl, ap, ap₂, ◌∙◌, true, some, List, [], ◌∷◌, map, All}
use pocage.Text.{is_nonempty}
use pocage.Json.Defs.{
  Value, Items, Fields, null, bool, nat, number, str, arr, obj, nil, item, end, field, to_items,
  to_fields,
}
use pocage.Json.Access.{get, member, nonempty_str}
use pocage.Connector.McpServers.{
  NamedValue, McpServer, http_server, stdio_server, named_fields, named_items, named_values,
  text_items, text_args, http_entry, stdio_entry, kind_of, server_entry, normalize_mcp_servers,
}

abbrev named_item : NamedValue → Value
named_item x = obj (to_fields (("name", str x.name) ∷ ("value", str x.value) ∷ []))

-- the dict that stands for a server
unfoldable pub server_value : McpServer → Value
server_value (http_server name url headers) = obj (
    to_fields (
      ("type", str "http")
      ∷ ("name", str name)
      ∷ ("url", str url)
      ∷ ("headers", arr (to_items (map named_item headers)))
      ∷ []))
server_value (stdio_server name command args env) = obj (
    to_fields (
      ("type", str "stdio")
      ∷ ("name", str name)
      ∷ ("command", str command)
      ∷ ("args", arr (to_items (map str args)))
      ∷ ("env", arr (to_items (map named_item env)))
      ∷ []))

-- The name is not empty, nor the address or the command.
unfoldable pub IsComplete : McpServer → Type 0
IsComplete (http_server name url headers) = (is_nonempty name ≡ true) × (is_nonempty url ≡ true)
IsComplete (stdio_server name command args env) =
    (is_nonempty name ≡ true) × (is_nonempty command ≡ true)

named_items-named_item : (xs : List NamedValue) → named_items (to_items (map named_item xs)) ≡ xs
unfolding named_items to_items get member
named_items-named_item [] = refl
named_items-named_item (x ∷ xs) = ap (◌∷◌ x) (named_items-named_item xs)

text_items-str : (args : List String) → text_items (to_items (map str args)) ≡ args
unfolding text_items to_items
text_items-str [] = refl
text_items-str (s ∷ args) = ap (◌∷◌ s) (text_items-str args)

nonempty_str_lem : (s : String) → is_nonempty s ≡ true → nonempty_str (str s) ≡ some s
unfolding nonempty_str
nonempty_str_lem s h = rw h refl

http_found :
    (server : Fields) (name url : String)
    → kind_of server ≡ some "http"
    → nonempty_str (get server "name") ≡ some name
    → nonempty_str (get server "url") ≡ some url
    → server_entry (obj server) ≡ some (http_server name url (named_values (get server "headers")))
unfolding server_entry http_entry
http_found server name url kind named addressed =
    rw (server_entry, kind, named, http_entry, addressed) refl

stdio_found :
    (server : Fields) (name command : String)
    → kind_of server ≡ some "stdio"
    → nonempty_str (get server "name") ≡ some name
    → nonempty_str (get server "command") ≡ some command
    → server_entry (obj server)
      ≡ some (
          stdio_server name command
            (text_args (get server "args"))
            (named_values (get server "env")))
unfolding server_entry stdio_entry
stdio_found server name command kind named runs =
    rw (server_entry, kind, named, stdio_entry, runs) refl

server_entry-server_value :
    (server : McpServer) → IsComplete server → server_entry (server_value server) ≡ some server
unfolding server_value IsComplete kind_of get member named_values text_args
server_entry-server_value (http_server name url headers) (named, addressed) =
    http_found _ name url refl (nonempty_str_lem name named) (nonempty_str_lem url addressed)
    ∙ ap (λ xs. some (http_server name url xs)) (named_items-named_item headers)
server_entry-server_value (stdio_server name command args env) (named, runs) =
    stdio_found _ name command refl (nonempty_str_lem name named) (nonempty_str_lem command runs)
    ∙ ap₂ (λ xs ys. some (stdio_server name command xs ys)) (text_items-str args)
        (named_items-named_item env)

-- HTTP and stdio servers with a name and an address or a command, written as dicts, are read back as
-- the same servers, in order.
pub normalize_mcp_servers-server_value :
    (servers : List McpServer)
    → All IsComplete servers
    → normalize_mcp_servers (map server_value servers) ≡ servers
unfolding normalize_mcp_servers
normalize_mcp_servers-server_value [] h = refl
normalize_mcp_servers-server_value (server ∷ servers) h =
    rw (server_entry-server_value server h.0, normalize_mcp_servers-server_value servers h.1) refl

-- the entries of a dict as a list of dicts with a name and a value each
unfoldable pub as_list : Fields → Items
as_list end = nil
as_list (field key v fs) = item (obj (field "name" (str key) (field "value" v end))) (as_list fs)

named_fields-as_list : (fs : Fields) → named_fields fs ≡ named_items (as_list fs)
unfolding named_fields named_items as_list get member
named_fields-as_list end = refl
named_fields-as_list (field key (str s) fs) =
    ap (◌∷◌ (record { name = key; value = s })) (named_fields-as_list fs)
named_fields-as_list (field key null fs) = named_fields-as_list fs
named_fields-as_list (field key (bool b) fs) = named_fields-as_list fs
named_fields-as_list (field key (nat n) fs) = named_fields-as_list fs
named_fields-as_list (field key (number t) fs) = named_fields-as_list fs
named_fields-as_list (field key (arr vs) fs) = named_fields-as_list fs
named_fields-as_list (field key (obj gs) fs) = named_fields-as_list fs

-- Headers or variables given as a dict and as the list of its entries are read alike.
pub named_values-as_list : (fs : Fields) → named_values (obj fs) ≡ named_values (arr (as_list fs))
unfolding named_values
named_values-as_list fs = named_fields-as_list fs
