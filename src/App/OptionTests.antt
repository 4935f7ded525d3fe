-- ===== src/App/OptionTests.antt =====
-- Command lines of the program, with a stdlib.h that knows two numbers.
use hispark_soc_china.Prelude.{
  ℕ, ◌≡◌, refl, true, false, none, some, List, [], ◌∷◌, ◌++◌, if◌then◌else◌,
}
use hispark_soc_china.Prelude.Strings.{bytes_of, same}
use hispark_soc_china.Floats.Thousandths.{thousandths}
use hispark_soc_china.Pipeline.Config.{pipeline_config_defaults, pipeline_config_validate}
use hispark_soc_china.App.Options.{
  opt_stream, opt_fps, opt_model, opt_strength, Stdlib, MainOptions, main_defaults, read_options,
  take_option, plain_option, take_value, value_option, if_ok, without_model, set_value, set_plain,
  main_options,
}
use hispark_soc_china.App.Commands.{
  Command, plain, given, words, set_all, read_options-words, Ready, main_options-Ready,
}

abbrev number_of : List ℕ → ℕ
number_of w = if same w (bytes_of "25") then 25 else if same w (bytes_of "0.500") then 500 else 0

abbrev lib : Stdlib thousandths
lib = record {
  atoi = λ w. record { negative = false; magnitude = number_of w };
  strtoul = number_of;
  atof = number_of;
}

-- A value that is spelled like an option is taken as it stands.
abbrev line : List Command
line =
    plain opt_stream
    ∷ given opt_fps (bytes_of "25")
    ∷ given opt_model (bytes_of "--no-nn")
    ∷ given opt_strength (bytes_of "0.500")
    ∷ []

abbrev expected : MainOptions thousandths
expected = record (main_defaults thousandths) {
  cfg = record ((main_defaults thousandths).cfg) {
    enable_stream = true;
    target_fps = 25;
    model_path = some (bytes_of "--no-nn");
    tone_strength = 500;
  };
}

line_accepted : main_options thousandths lib (words line) ≡ some expected
unfolding main_options main_defaults same read_options take_option plain_option take_value
    value_option if_ok pipeline_config_validate without_model set_value set_plain
    pipeline_config_defaults
line_accepted = refl

value_missing : main_options thousandths lib (words line ++ (bytes_of "--fps" ∷ [])) ≡ none
unfolding main_options main_defaults same read_options take_option plain_option take_value
    value_option
value_missing = refl

main_options-Ready_example : Ready thousandths expected
main_options-Ready_example = main_options-Ready thousandths lib (words line) expected line_accepted

read_options-words_example :
    read_options thousandths lib false (words line) (main_defaults thousandths)
    ≡ some (set_all thousandths lib line (main_defaults thousandths))
read_options-words_example = read_options-words thousandths lib line (main_defaults thousandths)
