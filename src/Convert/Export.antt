-- ===== src/Convert/Export.antt =====
-- to_openai_part and to_openai_message of message/_convert.py (src/ftre_agent_core): content blocks as
-- a provider message. `dump` is pydantic's dict of a data block of a tool's output.
use ftre_agent_core.Prelude.{
  String, Option, none, some, Bool, true, false, List, [], ◌∷◌, map, ◌==◌, ◌<>◌, if◌then◌else◌,
}
use ftre_agent_core.Json.{Json, str, arr, obj, Fields, end, field, get, put, items_of}
use ftre_agent_core.Message.{
  Source, base64, url, DataBlock, Part, text_part, data_part, dict_part, Output, plain, parts,
  ToolCallBlock, ContentBlock, text, thinking, binary, hint, tool_call, tool_result,
}
use ftre_agent_core.Convert.{Codec, text_or}

-- `separator.join(texts)`
unfoldable pub join : String → List String → String
join separator [] = ""
join separator (s ∷ []) = s
join separator (s ∷ t ∷ ts) = s <> separator <> join separator (t ∷ ts)

unfoldable pub non_empty : List String → List String
non_empty [] = []
non_empty (s ∷ ss) = let rest = non_empty ss in if s == "" then rest else s ∷ rest

module _ (codec : Codec) (dump : DataBlock → Json) where
  -- `str(item.get("text", ""))`
  text_value : Option Json → String
  text_value none = ""
  text_value (some (str s)) = s
  text_value (some v) = codec.text_of v

  unfoldable pub part_text : Part → String
  unfolding text_value text_or get
  part_text (text_part b) = b.text
  part_text (data_part b) = codec.dumps (dump b)
  part_text (dict_part d) =
      if text_or "" "type" d == "text" then text_value (get "text" d) else codec.dumps (obj d)

  -- _tool_result_content
  unfoldable pub tool_result_content : Output → String
  unfolding join non_empty part_text
  tool_result_content (plain s) = s
  tool_result_content (parts ps) = join "\n" (non_empty (map part_text ps))

  abbrev pub text_dict : String → Fields
  text_dict s = field "type" (str "text") (field "text" (str s) end)

  abbrev pub image_dict : String → Fields
  image_dict address =
      field "type" (str "image_url") (field "image_url" (obj (field "url" (str address) end)) end)

  source_address : Source → String
  source_address (base64 bytes media_type) = "data:" <> media_type <> ";base64," <> bytes
  source_address (url address media_type) = address

  -- The texts of the dicts of a hint; an item that is a block is passed over. A text that is not a
  -- string, at which `join` raises, counts as empty.
  hint_texts : List Part → List String
  unfolding text_or
  hint_texts [] = []
  hint_texts (dict_part d ∷ ps) =
      let rest = hint_texts ps in
      if text_or "" "type" d == "text" then text_or "" "text" d ∷ rest else rest
  hint_texts (_ ∷ ps) = hint_texts ps

  hint_text : Output → String
  unfolding hint_texts join
  hint_text (plain s) = s
  hint_text (parts ps) = join "\n" (hint_texts ps)

  unfoldable pub to_openai_part : ContentBlock → Fields
  unfolding source_address hint_text tool_result_content
  to_openai_part (text b) = text_dict b.text
  to_openai_part (thinking b) =
      field "type" (str "thinking") (field "thinking" (str b.thinking) end)
  to_openai_part (binary b) = image_dict (source_address b.source)
  to_openai_part (hint b) = text_dict (hint_text b.hint)
  to_openai_part (tool_call b) =
      field "type" (str "toolCall") (
        field "id" (str b.id) (field "name" (str b.name) (field "arguments" (obj b.arguments) end)))
  to_openai_part (tool_result b) = text_dict (tool_result_content b.output)

  abbrev pub call_dict : ToolCallBlock → Fields
  call_dict b = field "id" (str b.id) (
      field "type" (str "function") (
        field "function"
          (obj (
            field "name" (str b.name)
              (field "arguments" (str (codec.dumps (obj b.arguments))) end)))
          end))

  -- The three lists that the loop over the blocks fills.
  unfoldable pub call_dicts : List ContentBlock → List Json
  call_dicts [] = []
  call_dicts (tool_call b ∷ bs) = obj (call_dict b) ∷ call_dicts bs
  call_dicts (_ ∷ bs) = call_dicts bs

  unfoldable pub reasoning_texts : List ContentBlock → List String
  reasoning_texts [] = []
  reasoning_texts (thinking b ∷ bs) = b.thinking ∷ reasoning_texts bs
  reasoning_texts (_ ∷ bs) = reasoning_texts bs

  unfoldable pub content_parts : List ContentBlock → List Json
  unfolding to_openai_part
  content_parts [] = []
  content_parts (tool_call b ∷ bs) = content_parts bs
  content_parts (thinking b ∷ bs) = content_parts bs
  content_parts (b ∷ bs) = obj (to_openai_part b) ∷ content_parts bs

  abbrev pub content_of : List Json → Json
  content_of [] = str ""
  content_of (v ∷ vs) = arr (items_of (v ∷ vs))

  abbrev pub with_calls : List Json → Fields → Fields
  with_calls [] m = m
  with_calls (v ∷ vs) m = put "tool_calls" (arr (items_of (v ∷ vs))) m

  abbrev pub tool_message : String → String → Fields
  tool_message id content =
      field "role" (str "tool") (field "tool_call_id" (str id) (field "content" (str content) end))

  unfoldable pub first_result : List ContentBlock → Fields
  unfolding tool_result_content
  first_result [] = tool_message "" ""
  first_result (tool_result b ∷ bs) = tool_message b.id (tool_result_content b.output)
  first_result (_ ∷ bs) = first_result bs

  abbrev pub starts_with_result : List ContentBlock → Bool
  starts_with_result (tool_result b ∷ bs) = true
  starts_with_result _ = false

  abbrev pub with_reasoning : String → List String → Fields → Fields
  with_reasoning role texts m =
      if role == "assistant" then put "reasoning_content" (str (join "\n" texts)) m else m

  unfoldable pub role_message : String → List ContentBlock → Fields
  unfolding content_parts call_dicts reasoning_texts join put items_of
  role_message role bs = with_calls (call_dicts bs) (
      with_reasoning role (reasoning_texts bs)
        (field "role" (str role) (field "content" (content_of (content_parts bs)) end)))

  -- to_openai_message; a role that is none or empty is "assistant"
  unfoldable pub to_openai_message : Option String → List ContentBlock → Fields
  unfolding first_result role_message
  to_openai_message none bs =
      if starts_with_result bs then first_result bs else role_message "assistant" bs
  to_openai_message (some role) bs =
      if role == "tool"
      then first_result bs
      else role_message (if role == "" then "assistant" else role) bs
