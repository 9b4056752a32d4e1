-- ===== src/BowstringMaterial/Materials.antt =====
-- backend/src/bowstring_material.cpp and its header: the kinds of string, what is known of one, and the four
-- materials as `initialize_defaults` sets them, before their data are added.
use Prim.Native.String.{String}
use ai_solo_coder_task_b.Prelude.{ℕ, List, []}
use ai_solo_coder_task_b.Prelude.Int.{ℤ, pos}
use ai_solo_coder_task_b.Double.{Double}

pub data BowstringMaterialType : Type 0 where
  unknown : BowstringMaterialType
  sinew : BowstringMaterialType
  horn : BowstringMaterialType
  silk : BowstringMaterialType
  hemp : BowstringMaterialType
  custom : BowstringMaterialType

-- The values of the enumeration, by which the map of materials is ordered.
abbrev pub to_int : BowstringMaterialType → ℕ
to_int unknown = 0
to_int sinew = 1
to_int horn = 2
to_int silk = 3
to_int hemp = 4
to_int custom = 99

pub record MaterialDataPoint (W : Type 0) : Type 0 where
  pub pull_ratio : W
  pub stress_pa : W
  pub strain : W
  pub efficiency : W
  pub damping_factor : W
  pub temperature_c : W
  pub humidity : W
  pub sample_id : String

pub record BowstringMaterial (W : Type 0) : Type 0 where
  pub material_type : BowstringMaterialType
  pub name : String
  pub description : String
  pub historical_origin : String
  pub young_modulus : W
  pub tensile_strength : W
  pub density : W
  pub elongation_at_break : W
  pub damping_coefficient : W
  pub energy_efficiency : W
  pub fatigue_life_cycles : W
  pub moisture_sensitivity : W
  pub temperature_coefficient : W
  pub thickness_mm : W
  pub strand_count : ℤ
  pub experimental_data : List (MaterialDataPoint W)

module _ {W : Type 0} ⦃d : Double W⦄ where
  open d use {lit}

  abbrev pub sinew_base : BowstringMaterial W
  sinew_base = record {
    material_type = sinew;
    name = "animal_sinew";
    description = "动物筋腱弓弦，古代复合弓标配，弹性极佳、储能高";
    historical_origin = "欧亚草原，斯基泰人、匈奴人广泛使用，汉代传入中原";
    young_modulus = lit 1800000000 0;
    tensile_strength = lit 120000000 0;
    density = lit 1150 0;
    elongation_at_break = lit 22 2;
    damping_coefficient = lit 12 1;
    energy_efficiency = lit 88 2;
    fatigue_life_cycles = lit 80000 0;
    moisture_sensitivity = lit 65 2;
    temperature_coefficient = lit 8 3;
    thickness_mm = lit 18 1;
    strand_count = pos 14;
    experimental_data = [];
  }

  abbrev pub horn_base : BowstringMaterial W
  horn_base = record {
    material_type = horn;
    name = "animal_horn_sinew";
    description = "角筋复合弓弦，水牛角片+筋腱压制，强度高但偏脆";
    historical_origin = "中国汉代角弓技术，唐代达到巅峰，《考工记》载六材之制";
    young_modulus = lit 7500000000 0;
    tensile_strength = lit 210000000 0;
    density = lit 1350 0;
    elongation_at_break = lit 9 2;
    damping_coefficient = lit 38 1;
    energy_efficiency = lit 91 2;
    fatigue_life_cycles = lit 45000 0;
    moisture_sensitivity = lit 45 2;
    temperature_coefficient = lit 4 3;
    thickness_mm = lit 22 1;
    strand_count = pos 10;
    experimental_data = [];
  }

  abbrev pub silk_base : BowstringMaterial W
  silk_base = record {
    material_type = silk;
    name = "silk_thread";
    description = "蚕丝弓弦，质地轻盈、一致性好，适合高精度射击但成本高";
    historical_origin = "中国古代精锐部队配置，宋代神臂弩手标配蚕丝弦";
    young_modulus = lit 10500000000 0;
    tensile_strength = lit 420000000 0;
    density = lit 1380 0;
    elongation_at_break = lit 17 2;
    damping_coefficient = lit 21 1;
    energy_efficiency = lit 93 2;
    fatigue_life_cycles = lit 25000 0;
    moisture_sensitivity = lit 3 1;
    temperature_coefficient = lit 2 3;
    thickness_mm = lit 12 1;
    strand_count = pos 32;
    experimental_data = [];
  }

  abbrev pub hemp_base : BowstringMaterial W
  hemp_base = record {
    material_type = hemp;
    name = "hemp_fiber";
    description = "麻纤维弓弦，成本低廉、耐候性好，民兵及训练通用耗材";
    historical_origin = "古代各国最普及的弓弦材料，古埃及、古希腊、古中国均有使用";
    young_modulus = lit 35000000000 0;
    tensile_strength = lit 180000000 0;
    density = lit 1500 0;
    elongation_at_break = lit 35 3;
    damping_coefficient = lit 55 1;
    energy_efficiency = lit 76 2;
    fatigue_life_cycles = lit 120000 0;
    moisture_sensitivity = lit 25 2;
    temperature_coefficient = lit 15 4;
    thickness_mm = lit 35 1;
    strand_count = pos 24;
    experimental_data = [];
  }

  -- The value-initialised material of a type that is not in the map.
  abbrev pub unknown_material : BowstringMaterial W
  unknown_material = record {
    material_type = unknown;
    name = "unknown";
    description = "";
    historical_origin = "";
    young_modulus = lit 0 0;
    tensile_strength = lit 0 0;
    density = lit 0 0;
    elongation_at_break = lit 0 0;
    damping_coefficient = lit 0 0;
    energy_efficiency = lit 0 0;
    fatigue_life_cycles = lit 0 0;
    moisture_sensitivity = lit 0 0;
    temperature_coefficient = lit 0 0;
    thickness_mm = lit 0 0;
    strand_count = pos 0;
    experimental_data = [];
  }

  unfoldable pub create_custom : String → W → W → W → W → W → W → BowstringMaterial W
  create_custom name young_modulus tensile_strength density elongation damping efficiency = record {
    material_type = custom;
    name = name;
    description = "Custom user-defined bowstring material";
    historical_origin = "User-defined";
    young_modulus = young_modulus;
    tensile_strength = tensile_strength;
    density = density;
    elongation_at_break = elongation;
    damping_coefficient = damping;
    energy_efficiency = efficiency;
    fatigue_life_cycles = lit 50000 0;
    moisture_sensitivity = lit 4 1;
    temperature_coefficient = lit 5 3;
    thickness_mm = lit 2 0;
    strand_count = pos 16;
    experimental_data = [];
  }
