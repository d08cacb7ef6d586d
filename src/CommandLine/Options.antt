-- ===== src/CommandLine/Options.antt =====
-- ProgramOptions.cpp, built with LOGGING: the options, their defaults, and the checks of parse. The parser of
-- boost::program_options is a parameter: it yields what the command line gives for each option.
use ram_ble.Base.{
  ℕ, ◌-◌, ◌^◌, Bool, true, false, not, ◌&&◌, ◌||◌, Option, none, some, if◌then◌else◌, ◌==◌, String,
}
use ram_ble.CommandLine.Runs.{po_error, Result, ok, err}

-- The members, which the functions of ProgramOptions return.
pub record ProgramOptions (Double : Type 0) : Type 0 where
  pub log_level : String
  pub log_file : String
  pub data_file : String
  pub algo_name : String
  pub target_var : String
  pub output_file : String
  pub counter_type : String
  pub alpha : Double
  pub imbalance_threshold : Double
  pub num_vars : ℕ
  pub num_obs : ℕ
  pub max_conditioning : ℕ
  pub separator : String
  pub parallel_read : Bool
  pub col_obs : Bool
  pub var_names : Bool
  pub obs_indices : Bool
  pub discover_mb : Bool
  pub learn_network : Bool
  pub direct_edges : Bool
  pub force_parallel : Bool
  pub host_names : Bool
  pub warmup_mpi : Bool

-- The options that the command line gives, each with its value; a switch has none.
pub record Given (Double : Type 0) : Type 0 where
  pub help : Bool
  pub nvars : Option ℕ
  pub nobs : Option ℕ
  pub file : Option String
  pub readpar : Bool
  pub colobs : Bool
  pub separator : Option String
  pub varnames : Bool
  pub indices : Bool
  pub algorithm : Option String
  pub directed : Bool
  pub output : Option String
  pub alpha : Option Double
  pub conditioning : Option ℕ
  pub imbalance : Option Double
  pub counter : Option String
  pub warmup : Bool
  pub parallel : Bool
  pub hostnames : Bool
  pub target : Option String
  pub blanket : Bool
  pub learn : Bool
  pub loglevel : Option String
  pub logfile : Option String

abbrev pub given_or {ℓ} : {A : Type ℓ} → Option A → A → A
given_or none a = a
given_or (some b) a = b

abbrev pub is_given {ℓ} : {A : Type ℓ} → Option A → Bool
is_given none = false
is_given (some _) = true

-- std::numeric_limits<uint32_t>::max()
abbrev pub max_uint32 : ℕ
max_uint32 = 2 ^ 32 - 1

-- `hundredths n` is the literal n / 100.
module _ {Double : Type 0} (hundredths : ℕ → Double) where
  -- po::notify: the given value, the default, or what the constructor left.
  unfoldable pub notify : Given Double → ProgramOptions Double
  notify g = record {
    log_level = given_or g.loglevel "error";
    log_file = given_or g.logfile "";
    data_file = given_or g.file "";
    algo_name = given_or g.algorithm "gs";
    target_var = given_or g.target "";
    output_file = given_or g.output "";
    counter_type = given_or g.counter "ct";
    alpha = given_or g.alpha (hundredths 5);
    imbalance_threshold = given_or g.imbalance (hundredths 20);
    num_vars = given_or g.nvars 0;
    num_obs = given_or g.nobs 0;
    max_conditioning = given_or g.conditioning max_uint32;
    separator = given_or g.separator ",";
    parallel_read = g.readpar;
    col_obs = g.colobs;
    var_names = g.varnames;
    obs_indices = g.indices;
    discover_mb = g.blanket;
    learn_network = g.learn;
    direct_edges = g.directed;
    force_parallel = g.parallel;
    host_names = g.hostnames;
    warmup_mpi = g.warmup;
  }

  -- parse: `description` is the text of m_desc, `exists` is fs::exists
  unfoldable pub parse :
      ℕ → Result (Given Double) → String → (String → Bool) → Result (ProgramOptions Double)
  unfolding notify
  parse argc (err e) description exists = err e
  parse argc (ok g) description exists =
      let options = notify g in
      if argc == 1 || g.help
      then err (po_error description)
      else if not (is_given g.target) && not options.learn_network && not (is_given g.output)
      then err (po_error "At least one of --target, --learn, or --output should be specified.")
      else if not (exists options.data_file)
      then err (po_error "Couldn't find the data file.")
      else ok options
