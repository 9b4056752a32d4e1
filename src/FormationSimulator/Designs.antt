-- ===== src/FormationSimulator/Designs.antt =====
-- backend/src/formation_simulator.cpp, `initialize_defaults` of `FormationDatabase`: the ten formations.
use Prim.Native.String.{String}
use ai_solo_coder_task_b.Prelude.{ℕ, List, [], ◌∷◌}
use ai_solo_coder_task_b.Double.{Double}

pub data FormationType : Type 0 where
  line_abreast : FormationType
  wedge : FormationType
  echelon_left : FormationType
  echelon_right : FormationType
  vee : FormationType
  archer_parabola : FormationType
  coiled_bow : FormationType
  crane_wing : FormationType
  square_grid : FormationType
  fish_scale : FormationType
  custom : FormationType

-- The values of the enumeration.
abbrev pub to_int : FormationType → ℕ
to_int line_abreast = 0
to_int wedge = 1
to_int echelon_left = 2
to_int echelon_right = 3
to_int vee = 4
to_int archer_parabola = 5
to_int coiled_bow = 6
to_int crane_wing = 7
to_int square_grid = 8
to_int fish_scale = 9
to_int custom = 99

pub record FormationDesign (W : Type 0) : Type 0 where
  pub formation : FormationType
  pub name : String
  pub description : String
  pub historical_origin : String
  pub min_crossbows : ℕ
  pub optimal_crossbows : ℕ
  pub max_crossbows : ℕ
  pub frontage_per_unit_m : W
  pub depth_per_unit_m : W
  pub minimum_safety_spacing_m : W
  pub best_suited_range_m : W
  pub defensive_utility : W
  pub offensive_utility : W
  pub siege_utility : W
  pub mobility_score : W
  pub command_and_control_score : W

module _ {W : Type 0} ⦃d : Double W⦄ where
  open d use {lit}

  abbrev pub line : FormationDesign W
  line = record {
    formation = line_abreast;
    name = "line_abreast";
    description = "一字横阵，正面火力最强，适合阵地防御";
    historical_origin = "秦汉时期步兵弩阵基础阵型，《尉缭子·兵教上》所载";
    min_crossbows = 3;
    optimal_crossbows = 20;
    max_crossbows = 200;
    frontage_per_unit_m = lit 25 1;
    depth_per_unit_m = lit 1 0;
    minimum_safety_spacing_m = lit 15 1;
    best_suited_range_m = lit 250 0;
    defensive_utility = lit 95 2;
    offensive_utility = lit 55 2;
    siege_utility = lit 7 1;
    mobility_score = lit 4 1;
    command_and_control_score = lit 9 1;
  }

  abbrev pub wedge_design : FormationDesign W
  wedge_design = record {
    formation = wedge;
    name = "wedge";
    description = "楔形攻击阵，中央突破，两翼掩护";
    historical_origin = "战国魏武卒方阵演变，《吴子·治兵》鱼丽阵变体";
    min_crossbows = 7;
    optimal_crossbows = 37;
    max_crossbows = 180;
    frontage_per_unit_m = lit 2 0;
    depth_per_unit_m = lit 25 1;
    minimum_safety_spacing_m = lit 18 1;
    best_suited_range_m = lit 180 0;
    defensive_utility = lit 65 2;
    offensive_utility = lit 9 1;
    siege_utility = lit 5 1;
    mobility_score = lit 65 2;
    command_and_control_score = lit 7 1;
  }

  abbrev pub echelon_l : FormationDesign W
  echelon_l = record {
    formation = echelon_left;
    name = "echelon_left";
    description = "左斜梯次阵，掩护右翼，反骑兵冲击首选";
    historical_origin = "唐代《太白阴经》所载抵御骑兵阵法";
    min_crossbows = 5;
    optimal_crossbows = 30;
    max_crossbows = 150;
    frontage_per_unit_m = lit 28 1;
    depth_per_unit_m = lit 22 1;
    minimum_safety_spacing_m = lit 2 0;
    best_suited_range_m = lit 220 0;
    defensive_utility = lit 85 2;
    offensive_utility = lit 65 2;
    siege_utility = lit 45 2;
    mobility_score = lit 75 2;
    command_and_control_score = lit 8 1;
  }

  abbrev pub echelon_r : FormationDesign W
  echelon_r = record {
    formation = echelon_right;
    name = "echelon_right";
    description = "右斜梯次阵，掩护左翼";
    historical_origin = "唐代《太白阴经》所载抵御骑兵阵法";
    min_crossbows = 5;
    optimal_crossbows = 30;
    max_crossbows = 150;
    frontage_per_unit_m = lit 28 1;
    depth_per_unit_m = lit 22 1;
    minimum_safety_spacing_m = lit 2 0;
    best_suited_range_m = lit 220 0;
    defensive_utility = lit 85 2;
    offensive_utility = lit 65 2;
    siege_utility = lit 45 2;
    mobility_score = lit 75 2;
    command_and_control_score = lit 8 1;
  }

  abbrev pub vee_design : FormationDesign W
  vee_design = record {
    formation = vee;
    name = "vee";
    description = "V形反包围阵，诱敌深入，两侧交叉火力夹击";
    historical_origin = "孙膑兵法'雁行之阵'，马陵之战伏击阵原型";
    min_crossbows = 9;
    optimal_crossbows = 45;
    max_crossbows = 200;
    frontage_per_unit_m = lit 22 1;
    depth_per_unit_m = lit 3 0;
    minimum_safety_spacing_m = lit 18 1;
    best_suited_range_m = lit 150 0;
    defensive_utility = lit 9 1;
    offensive_utility = lit 8 1;
    siege_utility = lit 35 2;
    mobility_score = lit 5 1;
    command_and_control_score = lit 6 1;
  }

  abbrev pub parabola : FormationDesign W
  parabola = record {
    formation = archer_parabola;
    name = "archer_parabola";
    description = "弧形射击阵，中央后退两翼前出，火力呈抛物线覆盖";
    historical_origin = "汉代匈奴骑兵战术改良，卫青漠北之战远程弩阵";
    min_crossbows = 10;
    optimal_crossbows = 50;
    max_crossbows = 250;
    frontage_per_unit_m = lit 24 1;
    depth_per_unit_m = lit 2 0;
    minimum_safety_spacing_m = lit 18 1;
    best_suited_range_m = lit 300 0;
    defensive_utility = lit 88 2;
    offensive_utility = lit 75 2;
    siege_utility = lit 6 1;
    mobility_score = lit 55 2;
    command_and_control_score = lit 75 2;
  }

  abbrev pub coiled : FormationDesign W
  coiled = record {
    formation = coiled_bow;
    name = "coiled_bow";
    description = "盘弓阵，圆环状防御，四面射击无死角";
    historical_origin = "宋代《武经总要》所载'偃月营'变体，抗骑兵环形阵";
    min_crossbows = 12;
    optimal_crossbows = 48;
    max_crossbows = 240;
    frontage_per_unit_m = lit 18 1;
    depth_per_unit_m = lit 18 1;
    minimum_safety_spacing_m = lit 15 1;
    best_suited_range_m = lit 200 0;
    defensive_utility = lit 98 2;
    offensive_utility = lit 35 2;
    siege_utility = lit 9 1;
    mobility_score = lit 2 1;
    command_and_control_score = lit 55 2;
  }

  abbrev pub crane : FormationDesign W
  crane = record {
    formation = crane_wing;
    name = "crane_wing";
    description = "鹤翼阵，中央薄两翼厚，类似V形但中央可接敌近战";
    historical_origin = "春秋《左传》所载郑庄公鱼丽阵，后传为日本武田信玄绝学";
    min_crossbows = 11;
    optimal_crossbows = 55;
    max_crossbows = 220;
    frontage_per_unit_m = lit 23 1;
    depth_per_unit_m = lit 28 1;
    minimum_safety_spacing_m = lit 18 1;
    best_suited_range_m = lit 160 0;
    defensive_utility = lit 7 1;
    offensive_utility = lit 95 2;
    siege_utility = lit 4 1;
    mobility_score = lit 6 1;
    command_and_control_score = lit 5 1;
  }

  abbrev pub grid : FormationDesign W
  grid = record {
    formation = square_grid;
    name = "square_grid";
    description = "方形格阵，训练方阵，号令规整便于指挥";
    historical_origin = "西周司马法基础方阵，春秋演化为乘丘之制";
    min_crossbows = 9;
    optimal_crossbows = 36;
    max_crossbows = 144;
    frontage_per_unit_m = lit 25 1;
    depth_per_unit_m = lit 25 1;
    minimum_safety_spacing_m = lit 2 0;
    best_suited_range_m = lit 200 0;
    defensive_utility = lit 85 2;
    offensive_utility = lit 7 1;
    siege_utility = lit 75 2;
    mobility_score = lit 55 2;
    command_and_control_score = lit 95 2;
  }

  abbrev pub fish : FormationDesign W
  fish = record {
    formation = fish_scale;
    name = "fish_scale";
    description = "鱼鳞阵，交错排列，连续火力波次输出";
    historical_origin = "《孙膑兵法·十阵》所载，多排交替射击战术";
    min_crossbows = 8;
    optimal_crossbows = 40;
    max_crossbows = 200;
    frontage_per_unit_m = lit 22 1;
    depth_per_unit_m = lit 15 1;
    minimum_safety_spacing_m = lit 18 1;
    best_suited_range_m = lit 280 0;
    defensive_utility = lit 8 1;
    offensive_utility = lit 85 2;
    siege_utility = lit 65 2;
    mobility_score = lit 7 1;
    command_and_control_score = lit 75 2;
  }

  -- The designs in the order in which they are put into the map.
  abbrev pub all_designs : List (FormationDesign W)
  all_designs =
      line ∷ wedge_design ∷ echelon_l ∷ echelon_r ∷ vee_design ∷ parabola ∷ coiled ∷ crane ∷ grid
      ∷ fish ∷ []

-- `name_to_type_`: the names and their Chinese aliases.
abbrev pub name_to_type : List (String × FormationType)
name_to_type =
    ("line_abreast", line_abreast)
    ∷ ("一字阵", line_abreast)
    ∷ ("wedge", wedge)
    ∷ ("楔形阵", wedge)
    ∷ ("echelon_left", echelon_left)
    ∷ ("左梯次", echelon_left)
    ∷ ("echelon_right", echelon_right)
    ∷ ("右梯次", echelon_right)
    ∷ ("vee", vee)
    ∷ ("雁行阵", vee)
    ∷ ("V形阵", vee)
    ∷ ("archer_parabola", archer_parabola)
    ∷ ("弧形阵", archer_parabola)
    ∷ ("coiled_bow", coiled_bow)
    ∷ ("盘弓阵", coiled_bow)
    ∷ ("偃月营", coiled_bow)
    ∷ ("crane_wing", crane_wing)
    ∷ ("鹤翼阵", crane_wing)
    ∷ ("square_grid", square_grid)
    ∷ ("方阵", square_grid)
    ∷ ("fish_scale", fish_scale)
    ∷ ("鱼鳞阵", fish_scale)
    ∷ []
