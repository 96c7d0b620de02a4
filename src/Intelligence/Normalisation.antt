-- ===== src/Intelligence/Normalisation.antt =====
-- src/zeroshield/intelligence/normalisation.py and the records of connectors/base.py. `raw` is any
-- JSON object. What Python's `fromisoformat`, `float` and `str` say of a value are arguments.
mod Values
pub mod Feeds
pub mod Nvd
pub mod Advisory
pub mod Raises
use zero_shield.Base.Floats.{Float}
use zero_shield.Base.Effects.{err}
use zero_shield.Intelligence.Models.{VulnerabilitySourceName}
use Feeds.{normalise_cisa_kev, normalise_epss}
use Nvd.{normalise_nvd}
pub use Values.{
  Python, RawIntelligenceRecord, NormalisedContribution, NormalisationFailure, RecordFailure,
  failure, validation_error, Normal, failing, no_contribution,
}
unfoldable pub use Values.{require_cve_id, parse_date}

module _ {F : Type 0} ⦃f : Float F⦄ (py : Python F) where
  -- The mapper of a source
  abbrev pub mapper :
      VulnerabilitySourceName → RawIntelligenceRecord F → Normal (NormalisedContribution F)
  mapper VulnerabilitySourceName.nvd r = normalise_nvd py r
  mapper VulnerabilitySourceName.cisa_kev r = normalise_cisa_kev py r
  mapper VulnerabilitySourceName.epss r = normalise_epss py r
  mapper _ r = err NormalisationFailure.wrong_source

  unfoldable pub normalise : RawIntelligenceRecord F → Normal (NormalisedContribution F)
  normalise r = mapper r.source r
