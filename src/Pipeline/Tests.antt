-- ===== src/Pipeline/Tests.antt =====
-- Runs of the model of board/src/pipeline.c.
use hispark_soc_china.Prelude.{◌≡◌, ◌↔◌, refl, true, some}
use hispark_soc_china.Prelude.Strings.{bytes_of}
use hispark_soc_china.Floats.Thousandths.{thousandths}
use hispark_soc_china.Pipeline.Config.{
  PipelineConfig, status_ok, status_invalid, pipeline_config_defaults, pipeline_config_validate,
}
use hispark_soc_china.Pipeline.Valid.{IsValid, pipeline_config_validate-ok_iff}

abbrev streaming : PipelineConfig thousandths
streaming = record (pipeline_config_defaults thousandths) { enable_stream = true }

defaults_pass :
    pipeline_config_validate thousandths (some (pipeline_config_defaults thousandths)) ≡ status_ok
unfolding pipeline_config_validate pipeline_config_defaults
defaults_pass = refl

slash_refused :
    pipeline_config_validate thousandths
      (some (record streaming { stream_path = some (bytes_of "live/1") }))
    ≡ status_invalid
unfolding pipeline_config_validate pipeline_config_defaults
slash_refused = refl

pipeline_config_validate-ok_iff_example :
    (pipeline_config_validate thousandths (some streaming) ≡ status_ok)
    ↔ IsValid thousandths streaming
pipeline_config_validate-ok_iff_example = pipeline_config_validate-ok_iff thousandths streaming
