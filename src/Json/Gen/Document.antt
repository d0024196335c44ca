-- ===== src/Json/Gen/Document.antt =====
-- JSON documents, the calls of src/json_gen.c that write one, and its text.
use ghcli.Prelude.{ℕ, suc, Bool, List, [], ◌∷◌, ◌++◌, Bytes, if◌then◌else◌, codes, ℤ}
use ghcli.Decimal.{show, show_int}
use ghcli.Json.Escape.{escape}
use ghcli.Json.Gen.Calls.{
  Call, begin_object_call, end_object_call, begin_array_call, end_array_call, null_call,
  objmember_call, string_call, number_call, id_call, bool_call,
}
use Prim.Native.Nat.{max}

mutual
  pub data Json : Type 0 where
    nothing : Json
    truth : Bool → Json
    integer : ℤ → Json
    ident : ℕ → Json
    text : Bytes → Json
    list : Items → Json
    dict : Fields → Json

  pub data Items : Type 0 where
    no_items : Items
    item : Json → Items → Items

  pub data Fields : Type 0 where
    no_fields : Fields
    field : Bytes → Json → Fields → Fields

unfoldable mutual
  pub calls_of : Json → List Call
  calls_of nothing = null_call ∷ []
  calls_of (truth b) = bool_call b ∷ []
  calls_of (integer n) = number_call n ∷ []
  calls_of (ident n) = id_call n ∷ []
  calls_of (text s) = string_call s ∷ []
  calls_of (list xs) = begin_array_call ∷ (item_calls xs ++ (end_array_call ∷ []))
  calls_of (dict fs) = begin_object_call ∷ (field_calls fs ++ (end_object_call ∷ []))

  pub item_calls : Items → List Call
  item_calls no_items = []
  item_calls (item x xs) = calls_of x ++ item_calls xs

  pub field_calls : Fields → List Call
  field_calls no_fields = []
  field_calls (field k x fs) = objmember_call k ∷ (calls_of x ++ field_calls fs)

-- The text of a document: `sep` stands in front of the next member.
unfoldable mutual
  pub render : Json → Bytes
  render nothing = codes "null"
  render (truth b) = if b then codes "true" else codes "false"
  render (integer n) = show_int n
  render (ident n) = show n
  render (text s) = b'"' ∷ (escape s ++ codes "\"")
  render (list xs) = codes "[" ++ (render_items [] xs ++ codes "]")
  render (dict fs) = codes "{" ++ (render_fields [] fs ++ codes "}")

  pub render_items : Bytes → Items → Bytes
  render_items sep no_items = []
  render_items sep (item x xs) = (sep ++ render x) ++ render_items (codes ", ") xs

  pub render_fields : Bytes → Fields → Bytes
  render_fields sep no_fields = []
  render_fields sep (field k x fs) =
      (sep ++ (b'"' ∷ (escape k ++ codes "\": "))) ++ (render x ++ render_fields (codes ", ") fs)

-- How many scopes are open at once.
unfoldable mutual
  pub depth : Json → ℕ
  depth nothing = 0
  depth (truth b) = 0
  depth (integer n) = 0
  depth (ident n) = 0
  depth (text s) = 0
  depth (list xs) = suc (depth_items xs)
  depth (dict fs) = suc (depth_fields fs)

  pub depth_items : Items → ℕ
  depth_items no_items = 0
  depth_items (item x xs) = max (depth x) (depth_items xs)

  pub depth_fields : Fields → ℕ
  depth_fields no_fields = 0
  depth_fields (field k x fs) = max (depth x) (depth_fields fs)
