-- ===== src/Ecam/Catalog.antt =====
-- The drinks that a brew command can name (custom_components/delonghi_coffee/const.py, and the two
-- tables of custom_components/delonghi_coffee/api.py over it).
use delonghi_ha.Prelude.{ℕ, String, [], ◌∷◌, Option}
use delonghi_ha.Prelude.Dict.{Dict, lookup, insert}

-- The entries of BEVERAGES that carry a `drink_id`, in the order of the source.
abbrev pub beverages : Dict ℕ
beverages =
    ("espresso", 1)
    ∷ ("regular", 2)
    ∷ ("long_coffee", 3)
    ∷ ("2x_espresso", 4)
    ∷ ("doppio_pl", 5)
    ∷ ("doppio", 5)
    ∷ ("americano", 6)
    ∷ ("cappuccino", 7)
    ∷ ("latte_macch", 8)
    ∷ ("latte_macchiato", 8)
    ∷ ("caffelatte", 9)
    ∷ ("flat_white", 10)
    ∷ ("espr_macch", 11)
    ∷ ("espr_macchiato", 11)
    ∷ ("hot_milk", 12)
    ∷ ("capp_doppio_pl", 13)
    ∷ ("capp_doppio", 13)
    ∷ ("capp_reverse", 15)
    ∷ ("hot_water", 16)
    ∷ ("espresso_lungo", 20)
    ∷ ("tea", 22)
    ∷ ("coffee_pot", 23)
    ∷ ("cortado", 24)
    ∷ ("long_black", 25)
    ∷ ("brew_over_ice", 27)
    ∷ ("verlangerter", 28)
    ∷ ("cafe_con_leche", 29)
    ∷ ("cafe_au_lait", 30)
    ∷ ("galao", 31)
    ∷ ("drip_style", 32)
    ∷ ("caffe_crema", 33)
    ∷ ("red_eye", 34)
    ∷ ("black_eye", 35)
    ∷ ("espresso_intenso", 36)
    ∷ ("ristretto_napoletano", 37)
    ∷ ("babyccino", 38)
    ∷ ("milchkaffee", 39)
    ∷ ("koffie_verkeerd", 40)
    ∷ ("i_americano", 50)
    ∷ ("i_cappuccino", 51)
    ∷ ("i_latte_macch", 52)
    ∷ ("i_capp_mix", 53)
    ∷ ("i_flatwhite", 54)
    ∷ ("i_coldmilk", 55)
    ∷ ("i_caffelatte", 56)
    ∷ ("over_ice_espr", 57)
    ∷ ("mug_americano", 80)
    ∷ ("mug_cappuccino", 81)
    ∷ ("mug_latte_macch", 82)
    ∷ ("mug_caffelatte", 83)
    ∷ ("mug_capp_mix", 84)
    ∷ ("mug_flat_white", 85)
    ∷ ("mug_hot_milk", 86)
    ∷ ("mug_coffee", 87)
    ∷ ("mug_i_brew_over_ice", 100)
    ∷ ("mug_i_americano", 101)
    ∷ ("mug_i_cappuccino", 102)
    ∷ ("mug_i_latte_macch", 103)
    ∷ ("mug_i_caffelatte", 104)
    ∷ ("mug_i_capp_mix", 105)
    ∷ ("mug_i_flat_white", 106)
    ∷ ("mug_i_cold_milk", 107)
    ∷ ("a_cb_coffee", 120)
    ∷ ("b_cb_coffee_ess", 121)
    ∷ ("c_cb_coffee_pot", 122)
    ∷ ("d_cb_latte", 123)
    ∷ ("e_cb_cappuccino", 124)
    ∷ ("f_cb_mug", 140)
    ∷ ("g_cb_latte_mug", 141)
    ∷ ("h_cb_capp_mug", 142)
    ∷ []

-- The entries that `_BEVERAGE_IDS` adds or replaces.
abbrev pub beverage_aliases : Dict ℕ
beverage_aliases =
    ("coffee", 2)
    ∷ ("latte_macch", 8)
    ∷ ("espr_macch", 11)
    ∷ ("espr_macchiato", 11)
    ∷ ("capp_doppio", 13)
    ∷ ("capp_doppio_pl", 13)
    ∷ ("capp_reverse", 15)
    ∷ ("latte_macchiato", 8)
    ∷ ("caffe_latte", 9)
    ∷ ("flat_white", 10)
    ∷ ("espresso_macchiato", 11)
    ∷ []

-- `{**d, **e}`
abbrev pub update : Dict ℕ → Dict ℕ → Dict ℕ
update d [] = d
update d ((k, v) ∷ rest) = update (insert k v d) rest

-- `_BEVERAGE_IDS.get(beverage)`
unfoldable pub beverage_id : String → Option ℕ
unfolding lookup insert
beverage_id beverage = lookup beverage (update beverages beverage_aliases)

abbrev pub beverage_accessory : Dict ℕ
beverage_accessory =
    ("cappuccino", 2)
    ∷ ("latte_macchiato", 2)
    ∷ ("caffe_latte", 2)
    ∷ ("flat_white", 2)
    ∷ ("espresso_macchiato", 2)
    ∷ ("hot_milk", 2)
    ∷ ("cortado", 2)
    ∷ []
