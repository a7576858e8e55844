-- ===== src/Registry/Schema/Laws.antt =====
-- What the definition of a tool says of its parameters (src/ftre_agent_core/tool/base.py).
use ftre_agent_core.Prelude.{
  String, ◌≡◌, ◌↔◌, refl, sym, ap, subst, ◌∙◌, Option, none, some, Bool, true, false, List, [], ◌∷◌,
  map, Memᴰ, mem_of_map, ◌==◌, inl, inr, Bool-cases, if◌then◌else◌,
}
use ftre_agent_core.Json.{Json, str, arr, obj, Fields, end, get, put, list_of, items_of}
use ftre_agent_core.Json.Laws.{get-put, list_of-items_of}
use ftre_agent_core.Registry.Schema.{
  ToolParameter, property_of, add_properties, required_names, to_openai_dict,
}

-- The dict and the list under a key, empty if there is none.
abbrev pub fields_in : Option Json → Fields
fields_in (some (obj d)) = d
fields_in _ = end

abbrev pub list_in : Option Json → List Json
list_in (some (arr vs)) = list_of vs
list_in _ = []

abbrev pub function_in : Fields → Fields
function_in d = fields_in (get "function" d)

abbrev pub parameters_in : Fields → Fields
parameters_in d = fields_in (get "parameters" (function_in d))

-- The last parameter with a name.
pub last_named : String → List ToolParameter → Option ToolParameter
last_named name [] = none
last_named name (p ∷ ps) = elim (last_named name ps) [
  | some q ↦ some q
  | none ↦ if p.name == name then some p else none
]

abbrev pub enum_of : List Json → Option Json
enum_of [] = none
enum_of (v ∷ vs) = some (arr (items_of (v ∷ vs)))

-- What is said of a parameter, and that nothing is said of a name that no parameter has.
abbrev pub Describes : Option ToolParameter → Option Json → Type 0
Describes none o = o ≡ none
Describes (some p) o =
    (f : Fields) × (o ≡ some (obj f))
    × (get "type" f ≡ some (str p.type))
    × (get "description" f ≡ some (str p.description))
    × (get "enum" f ≡ enum_of p.enum)

abbrev pub IsRequired : String → List ToolParameter → Type 0
IsRequired name ps = (p : ToolParameter) × Memᴰ p ps × (p.required ≡ true) × (p.name ≡ name)

pub record IsSchema (name description : String) (ps : List ToolParameter) (d : Fields)
    : Type 0 where
  pub named : get "name" (function_in d) ≡ some (str name)
  pub described : get "description" (function_in d) ≡ some (str description)
  pub properties :
      (parameter : String)
      → Describes
          (last_named parameter ps)
          (get parameter (fields_in (get "properties" (parameters_in d))))
  pub required :
      (parameter : String)
      → Memᴰ (str parameter) (list_in (get "required" (parameters_in d))) ↔ IsRequired parameter ps

abbrev property_if : Option ToolParameter → Option Json → Option Json
property_if none o = o
property_if (some p) o = some (obj (property_of p))

-- The properties after the loop.
get-add_properties :
    (name : String) (ps : List ToolParameter) (d : Fields)
    → get name (add_properties ps d) ≡ property_if (last_named name ps) (get name d)
unfolding add_properties last_named
get-add_properties name [] d = refl
get-add_properties name (p ∷ ps) d =
    get-add_properties name ps (put p.name (obj (property_of p)) d)
    ∙ ap (property_if (last_named name ps)) (get-put p.name name (obj (property_of p)) d)
    ∙ by_last (last_named name ps) (p.name == name)
  where
    by_last :
        (o : Option ToolParameter) (b : Bool)
        → property_if o (if b then some (obj (property_of p)) else get name d)
          ≡ property_if
              (elim o [ some q ↦ some q | none ↦ if b then some p else none ])
              (get name d)
    by_last (some q) b = refl
    by_last none true = refl
    by_last none false = refl

property_of-Describes :
    (p : ToolParameter) (vs : List Json)
    → p.enum ≡ vs
    → Describes (some p) (some (obj (property_of p)))
unfolding get put
property_of-Describes p [] e = (property_of p, refl, rw e refl, rw e refl, rw e refl)
property_of-Describes p (v ∷ vs) e = (property_of p, refl, rw e refl, rw e refl, rw e refl)

property_if-Describes : (o : Option ToolParameter) → Describes o (property_if o none)
property_if-Describes none = refl
property_if-Describes (some p) = property_of-Describes p p.enum refl

IsRequired-of_names :
    (name : String) (ps : List ToolParameter) → Memᴰ name (required_names ps) → IsRequired name ps
unfolding required_names
IsRequired-of_names name [] m = elim m [ ]
IsRequired-of_names name (p ∷ ps) m = elim (Bool-cases p.required) [
  | inl t ↦ either t (IsRequired-of_names name ps) (rw (t, required_names) at m)
  | inr t ↦ more (IsRequired-of_names name ps (rw (t, required_names) at m))
]
  where
    more : IsRequired name ps → IsRequired name (p ∷ ps)
    more (q, listed, r, e) = (q, Memᴰ.tail listed, r, e)

    either :
        p.required ≡ true
        → (Memᴰ name (required_names ps) → IsRequired name ps)
        → Memᴰ name (p.name ∷ required_names ps)
        → IsRequired name (p ∷ ps)
    either t f (Memᴰ.head e) = (p, Memᴰ.head refl, t, sym e)
    either t f (Memᴰ.tail k) = more (f k)

names-of_IsRequired :
    (name : String) (p : ToolParameter) (ps : List ToolParameter)
    → Memᴰ p ps
    → p.required ≡ true
    → p.name ≡ name
    → Memᴰ name (required_names ps)
unfolding required_names
names-of_IsRequired name p [] m r e = elim m [ ]
names-of_IsRequired name p (q ∷ ps) (Memᴰ.head s) r e =
    rw (ap (λ (x : ToolParameter). x.required) (sym s) ∙ r)
      (Memᴰ.head (sym e ∙ ap (λ (x : ToolParameter). x.name) s))
names-of_IsRequired name p (q ∷ ps) (Memᴰ.tail m) r e = elim (Bool-cases q.required) [
  | inl t ↦ rw t (Memᴰ.tail (names-of_IsRequired name p ps m r e))
  | inr t ↦ rw t (names-of_IsRequired name p ps m r e)
]

mem_map-str :
    (name : String) (names : List String) → Memᴰ name names → Memᴰ (str name) (map str names)
mem_map-str name [] m = elim m [ ]
mem_map-str name (n ∷ names) (Memᴰ.head e) = Memᴰ.head (ap str e)
mem_map-str name (n ∷ names) (Memᴰ.tail m) = Memᴰ.tail (mem_map-str name names m)

text_of : Json → String
text_of (str s) = s
text_of _ = ""

mem-required_names :
    (name : String) (ps : List ToolParameter)
    → Memᴰ (str name) (map str (required_names ps)) ↔ IsRequired name ps
unfolding text_of
mem-required_names name ps = (
  λ m.
      let (n, listed, e) = mem_of_map str (str name) (required_names ps) m in
      IsRequired-of_names name ps
        (subst (λ k. Memᴰ k (required_names ps)) (sym (ap text_of e)) listed),
  λ (p, listed, r, e).
      mem_map-str name (required_names ps) (names-of_IsRequired name p ps listed r e),
)

-- The definition of a tool has its name and its description. Its properties say the type, the
-- description and the enum, if there is one, of the last parameter with each name, and nothing of any
-- other name; the names listed as required are those of the required parameters.
pub to_openai_dict-IsSchema :
    (name description : String) (ps : List ToolParameter)
    → IsSchema name description ps (to_openai_dict name description ps)
unfolding to_openai_dict get
to_openai_dict-IsSchema name description ps = record {
  named = refl;
  described = refl;
  properties = λ parameter.
      subst (Describes (last_named parameter ps)) (sym (get-add_properties parameter ps end))
        (property_if-Describes (last_named parameter ps));
  required = λ parameter.
      subst (λ vs. Memᴰ (str parameter) vs ↔ IsRequired parameter ps)
        (sym (list_of-items_of (map str (required_names ps)))) (mem-required_names parameter ps);
}
