-- ===== src/Convert.antt =====
-- message/_convert.py (src/ftre_agent_core): between content blocks and provider messages, which are
-- dicts. `json`, the file system and `str` are in `Codec`. Where the code hands a value of a wrong
-- type to pydantic, which refuses it, the model reads an empty one.
pub mod Export
pub mod RoundTrip
mod Tests
use Prim.Native.Char.{code}
use ftre_agent_core.Prelude.{
  ℕ, suc, String, Option, none, some, Bool, true, false, ◌&&◌, ◌||◌, List, [], ◌∷◌, ◌++◌, map, ◌==◌,
  ◌<>◌, eqb, if◌then◌else◌,
}
use ftre_agent_core.Json.{Json, str, arr, obj, Fields, end, get, list_of}
use ftre_agent_core.Message.{
  pending, success, Source, base64, url, dict_part, plain, parts, ContentBlock, text, thinking,
  binary, tool_call, tool_result,
}

-- `json.loads` of an object (none is a failure), `json.dumps`, `str`, and the base64 text of a file
-- (none is an OSError).
pub record Codec : Type 0 where
  pub loads : String → Option Fields
  pub dumps : Json → String
  pub text_of : Json → String
  pub read_base64 : String → Option String

-- `d.get(key, default)` of a text
unfoldable pub text_or : String → String → Fields → String
unfolding get
text_or default key d = elim (get key d) [ some (str s) ↦ s | _ ↦ default ]

abbrev pub as_fields : Option Json → Fields
as_fields (some (obj d)) = d
as_fields _ = end

abbrev pub as_text : Option Json → Option String
as_text (some (str s)) = some s
as_text _ = none

-- `part.get("type", "text")`; a type that is no text equals none of the names, as "" does
abbrev pub part_type : Option Json → String
part_type none = "text"
part_type (some (str s)) = s
part_type (some v) = ""

-- `s.partition(c)`: what stands before the first `c`, and behind it
unfoldable pub before_char : ℕ → String → String
before_char c String.[] = ""
before_char c (String.◌∷◌ d s) = if eqb (code d) c then "" else String.◌∷◌ d (before_char c s)

unfoldable pub after_char : ℕ → String → String
after_char c String.[] = ""
after_char c (String.◌∷◌ d s) = if eqb (code d) c then s else after_char c s

unfoldable pub is_prefix : String → String → Bool
is_prefix String.[] s = true
is_prefix (String.◌∷◌ c p) String.[] = false
is_prefix (String.◌∷◌ c p) (String.◌∷◌ d s) = eqb (code c) (code d) && is_prefix p s

-- `p in s`
unfoldable pub contains : String → String → Bool
unfolding is_prefix
contains p String.[] = is_prefix p ""
contains p (String.◌∷◌ d s) = is_prefix p (String.◌∷◌ d s) || contains p s

abbrev pub data_block : String → Source → Option String → ContentBlock
data_block id source name =
    binary (record { source = source; name = name; id = id; finished_at = none })

abbrev pub new_text : String → String → ContentBlock
new_text id s = text (record { text = s; id = id; finished_at = none })

-- The `image_url` part: a data URL with `;base64` in its header is taken apart. The header begins
-- with `data:`, so its part behind the first colon is there.
unfoldable pub image_block : String → Option String → String → ContentBlock
unfolding is_prefix before_char after_char contains
image_block id name address =
    if is_prefix "data:" address
    then (let header = before_char b',' address in
        let mime = after_char b':' (before_char b';' header) in
        let media = if mime == "" then "image/png" else mime in
        if contains ";base64" header
        then data_block id (base64 (after_char b',' address) media) name
        else data_block id (url address media) name)
    else data_block id (url address "image/png") name

module _ (codec : Codec) where
  -- `part.get("image_url", {})`: a dict with the address, or the address
  image_address : Option Json → String
  image_address none = ""
  image_address (some (obj d)) = text_or "" "url" d
  image_address (some (str s)) = s
  image_address (some v) = codec.text_of v

  -- from_openai_part; the id is the new block's
  unfoldable pub from_openai_part : String → Fields → ContentBlock
  unfolding text_or image_block image_address get
  from_openai_part id part =
      let type = part_type (get "type" part) in
      if type == "text"
      then new_text id (text_or "" "text" part)
      else if type == "thinking"
      then thinking (record { thinking = text_or "" "thinking" part; id = id; finished_at = none })
      else if type == "image_url"
      then image_block id (as_text (get "name" part)) (image_address (get "image_url" part))
      else if type == "image_file"
      then elim (codec.read_base64 (text_or "" "path" part)) [
        | some bytes ↦
            data_block id (base64 bytes (text_or "image/png" "mime_type" part))
              (as_text (get "name" part))
        | none ↦ new_text id ("[图片加载失败: " <> text_or "" "path" part <> "]")
      ]
      else if type == "toolCall"
      then tool_call (record {
        id = text_or "" "id" part;
        name = text_or "" "name" part;
        arguments = as_fields (get "arguments" part);
        state = pending;
        finished_at = none;
      })
      else new_text id (codec.dumps (obj part))

  from_item : String → Json → ContentBlock
  from_item id (obj part) = from_openai_part id part
  from_item id (str s) = new_text id s
  from_item id v = new_text id (codec.text_of v)

  unfoldable pub from_items : (ℕ → String) → ℕ → List Json → List ContentBlock
  unfolding from_item from_openai_part
  from_items ids k [] = []
  from_items ids k (v ∷ vs) = from_item (ids k) v ∷ from_items ids (suc k) vs

  -- `content` as a list of parts, or as a text that is not empty
  from_content : (ℕ → String) → ℕ → Option Json → List ContentBlock
  from_content ids k (some (arr items)) = from_items ids k (list_of items)
  from_content ids k (some (str s)) = if s == "" then [] else new_text (ids k) s ∷ []
  from_content ids k _ = []

  from_reasoning : String → Option Json → List ContentBlock
  from_reasoning id (some (str s)) =
      if s == "" then [] else thinking (record { thinking = s; id = id; finished_at = none }) ∷ []
  from_reasoning id _ = []

  -- `json.loads(args_str) if args_str else {}`, and `{}` for what does not parse
  abbrev pub parse_or_empty : String → Fields
  parse_or_empty s = if s == "" then end else elim (codec.loads s) [ none ↦ end | some d ↦ d ]

  unfoldable pub from_tool_calls : List Json → List ContentBlock
  unfolding text_or get
  from_tool_calls [] = []
  from_tool_calls (obj tc ∷ rest) =
      tool_call (record {
        id = text_or "" "id" tc;
        name = text_or "" "name" (as_fields (get "function" tc));
        arguments = parse_or_empty (text_or "" "arguments" (as_fields (get "function" tc)));
        state = pending;
        finished_at = none;
      })
      ∷ from_tool_calls rest
  from_tool_calls (_ ∷ rest) = from_tool_calls rest

  abbrev pub as_list : Option Json → List Json
  as_list (some (arr items)) = list_of items
  as_list _ = []

  -- from_openai_message; block `k` of the result takes the id `ids k`, counted from `k`
  unfoldable pub from_openai_message : (ℕ → String) → ℕ → Fields → List ContentBlock
  unfolding from_content from_reasoning from_tool_calls from_items text_or get list_of
  from_openai_message ids k msg =
      if text_or "user" "role" msg == "tool"
      then tool_result (record {
        id = text_or "" "tool_call_id" msg;
        name = text_or "" "name" msg;
        output = elim (get "content" msg) [
          | some (arr items) ↦ parts (map (λ v. dict_part (as_fields (some v))) (list_of items))
          | _ ↦ plain (text_or "" "content" msg)
        ];
        state = success;
        metadata = end;
        finished_at = none;
      })
        ∷ []
      else (let content = from_content ids (suc k) (get "content" msg) in
          content
          ++ (from_reasoning (ids k) (get "reasoning_content" msg)
              ++ from_tool_calls (as_list (get "tool_calls" msg))))
