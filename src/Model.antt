-- ===== src/Model.antt =====
-- Which machine it is: `parse_serial_number`, `match_transcode_table`, `fetch_transcode_table` and
-- `identify_model` of custom_components/delonghi_coffee/api.py. Texts are lists of code points.
pub mod Serial
pub mod Laws
mod Examples
use delonghi_ha.Prelude.{
  ℕ, List, [], ◌∷◌, Bool, true, false, not, ◌&&◌, ◌==◌, ltb, length, take, drop, ◌-◌, Option, none,
  some, if◌then◌else◌,
}
use delonghi_ha.Model.Serial.{SerialInfo, digits_of, parse_serial_number}

-- The texts of a machine in the table that are read; a missing product code is empty.
pub record Machine : Type 0 where
  pub product_code : List ℕ
  pub app_model_id : Option (List ℕ)

abbrev pub same_code : List ℕ → List ℕ → Bool
same_code [] [] = true
same_code [] (c ∷ text) = false
same_code (d ∷ code) [] = false
same_code (d ∷ code) (c ∷ text) = (d == c) && same_code code text

-- `pc.endswith(suffix)`
unfoldable pub ends_in : List ℕ → List ℕ → Bool
ends_in suffix text =
    not (ltb (length text) (length suffix))
    && same_code suffix (drop (length text - length suffix) text)

-- "default"
abbrev pub default_id : List ℕ
default_id = 0x64 ∷ 0x65 ∷ 0x66 ∷ 0x61 ∷ 0x75 ∷ 0x6C ∷ 0x74 ∷ []

abbrev pub has_id : List ℕ → Option (List ℕ) → Bool
has_id id none = false
has_id id (some other) = same_code id other

unfoldable pub by_suffix : List ℕ → List Machine → Option Machine
by_suffix suffix [] = none
by_suffix suffix (m ∷ table) =
    let later = by_suffix suffix table in
    if ends_in suffix m.product_code && not (has_id default_id m.app_model_id)
    then some m
    else later

unfoldable pub by_app_id : List ℕ → List Machine → Option Machine
by_app_id target [] = none
by_app_id target (m ∷ table) =
    let later = by_app_id target table in if has_id target m.app_model_id then some m else later

-- `oem_to_app` is `OEM_TO_APP_MODEL.get`; an empty model or target finds nothing.
module _ (oem_to_app : List ℕ → Option (List ℕ)) where
  abbrev pub or_else_find : Option Machine → Option Machine → Option Machine
  or_else_find (some m) other = some m
  or_else_find none other = other

  unfoldable pub by_sku : Option (List ℕ) → List Machine → Option Machine
  by_sku none table = none
  by_sku (some digits) table =
      if ltb (length digits) 6 then none else by_suffix (take 6 digits) table

  abbrev pub by_target : Option (List ℕ) → List Machine → Option Machine
  by_target none table = none
  by_target (some []) table = none
  by_target (some (c ∷ target)) table = by_app_id (c ∷ target) table

  unfoldable pub by_oem : List ℕ → List Machine → Option Machine
  by_oem [] table = none
  by_oem (c ∷ oem_model) table = by_target (oem_to_app (c ∷ oem_model)) table

  unfoldable pub match_transcode_table : List Machine → Option (List ℕ) → List ℕ → Option Machine
  match_transcode_table table digits oem_model =
      or_else_find (by_sku digits table) (by_oem oem_model table)

-- What `_session.post` gives: a table with status 200, another status, or an exception of requests or
-- a ValueError.
pub data TableReply : Type 0 where
  machines : List Machine → TableReply
  other_status : TableReply
  no_table : TableReply

unfoldable pub fetch_transcode_table : TableReply → Option (List Machine) → Option (List Machine)
fetch_transcode_table reply (some table) = some table
fetch_transcode_table (machines table) none = some table
fetch_transcode_table other_status none = none
fetch_transcode_table no_table none = none

-- `_model_info`: a machine of the table, or the fallback with its name and app model.
pub data ModelInfo : Type 0 where
  matched : Machine → ModelInfo
  fallback : List ℕ → List ℕ → ModelInfo

module _ (oem_to_app model_names : List ℕ → Option (List ℕ)) (decode : List ℕ → Option (List ℕ))
    (is_digit : ℕ → Bool) where
  abbrev pub or_self : List ℕ → Option (List ℕ) → List ℕ
  or_self text none = text
  or_self text (some other) = other

  abbrev pub info_of : List ℕ → Option Machine → ModelInfo
  info_of oem_model (some m) = matched m
  info_of oem_model none =
      fallback (or_self oem_model (model_names oem_model))
        (or_self oem_model (oem_to_app oem_model))

  -- A table that is none or empty is not searched.
  abbrev pub search_table : Option (List Machine) → Option (List ℕ) → List ℕ → Option Machine
  search_table none digits oem_model = none
  search_table (some []) digits oem_model = none
  search_table (some (m ∷ table)) digits oem_model =
      match_transcode_table oem_to_app (m ∷ table) digits oem_model

  -- `identify_model`, with the serial number's property and `_model_info`, which it returns and keeps.
  unfoldable pub identify_model :
      Option (List Machine) → List ℕ → Option (List ℕ) → Option ModelInfo → ModelInfo
  identify_model table oem_model serial (some info) = info
  identify_model table oem_model serial none =
      info_of oem_model
        (search_table table (digits_of (parse_serial_number decode is_digit serial)) oem_model)
