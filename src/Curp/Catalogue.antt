-- ===== src/Curp/Catalogue.antt =====
-- The lists of words and the catalogue of states of lib.rs.
use galax_ia_sdk.Prelude.{List, [], ◌∷◌}
use galax_ia_sdk.Text.{Text, codes}

abbrev pub connectors : List Text
connectors =
    codes "DE"
    ∷ codes "DEL"
    ∷ codes "LA"
    ∷ codes "LAS"
    ∷ codes "LOS"
    ∷ codes "Y"
    ∷ codes "MC"
    ∷ codes "VAN"
    ∷ codes "VON"
    ∷ []

abbrev pub inconvenient : List Text
inconvenient =
    codes "BACA"
    ∷ codes "BAKA"
    ∷ codes "BUEI"
    ∷ codes "BUEY"
    ∷ codes "CACA"
    ∷ codes "CACO"
    ∷ codes "CAGA"
    ∷ codes "CAGO"
    ∷ codes "CAKA"
    ∷ codes "CAKO"
    ∷ codes "COGE"
    ∷ codes "COGI"
    ∷ codes "COJA"
    ∷ codes "COJE"
    ∷ codes "COJI"
    ∷ codes "COJO"
    ∷ codes "COLA"
    ∷ codes "CULO"
    ∷ codes "FALO"
    ∷ codes "FETO"
    ∷ codes "GETA"
    ∷ codes "GUEI"
    ∷ codes "GUEY"
    ∷ codes "JETA"
    ∷ codes "JOTO"
    ∷ codes "KACA"
    ∷ codes "KACO"
    ∷ codes "KAGA"
    ∷ codes "KAGO"
    ∷ codes "KAKA"
    ∷ codes "KAKO"
    ∷ codes "KOGE"
    ∷ codes "KOGI"
    ∷ codes "KOJA"
    ∷ codes "KOJE"
    ∷ codes "KOJI"
    ∷ codes "KOJO"
    ∷ codes "KOLA"
    ∷ codes "KULO"
    ∷ codes "LILO"
    ∷ codes "LOCA"
    ∷ codes "LOCO"
    ∷ codes "LOKA"
    ∷ codes "LOKO"
    ∷ codes "MAME"
    ∷ codes "MAMO"
    ∷ codes "MEAR"
    ∷ codes "MEAS"
    ∷ codes "MEON"
    ∷ codes "MIAR"
    ∷ codes "MION"
    ∷ codes "MOCO"
    ∷ codes "MOKO"
    ∷ codes "MULA"
    ∷ codes "MULO"
    ∷ codes "NACA"
    ∷ codes "NACO"
    ∷ codes "PEDA"
    ∷ codes "PEDO"
    ∷ codes "PENE"
    ∷ codes "PIPI"
    ∷ codes "PITO"
    ∷ codes "POPO"
    ∷ codes "PUTA"
    ∷ codes "PUTO"
    ∷ codes "QULO"
    ∷ codes "RATA"
    ∷ codes "ROBA"
    ∷ codes "ROBE"
    ∷ codes "ROBO"
    ∷ codes "RUIN"
    ∷ codes "SENO"
    ∷ codes "TETA"
    ∷ codes "VACA"
    ∷ codes "VAGA"
    ∷ codes "VAGO"
    ∷ codes "VAKA"
    ∷ codes "VUEI"
    ∷ codes "VUEY"
    ∷ codes "WUEI"
    ∷ codes "WUEY"
    ∷ []

abbrev pub entries : List (Text × Text)
entries =
    (codes "AGUASCALIENTES", codes "AS")
    ∷ (codes "BAJA CALIFORNIA", codes "BC")
    ∷ (codes "BAJA CALIFORNIA SUR", codes "BS")
    ∷ (codes "CAMPECHE", codes "CC")
    ∷ (codes "COAHUILA", codes "CL")
    ∷ (codes "COLIMA", codes "CM")
    ∷ (codes "CHIAPAS", codes "CS")
    ∷ (codes "CHIHUAHUA", codes "CH")
    ∷ (codes "CIUDAD DE MEXICO", codes "DF")
    ∷ (codes "DISTRITO FEDERAL", codes "DF")
    ∷ (codes "DURANGO", codes "DG")
    ∷ (codes "GUANAJUATO", codes "GT")
    ∷ (codes "GUERRERO", codes "GR")
    ∷ (codes "HIDALGO", codes "HG")
    ∷ (codes "JALISCO", codes "JC")
    ∷ (codes "MEXICO", codes "MC")
    ∷ (codes "ESTADO DE MEXICO", codes "MC")
    ∷ (codes "MICHOACAN", codes "MN")
    ∷ (codes "MORELOS", codes "MS")
    ∷ (codes "NAYARIT", codes "NT")
    ∷ (codes "NUEVO LEON", codes "NL")
    ∷ (codes "OAXACA", codes "OC")
    ∷ (codes "PUEBLA", codes "PL")
    ∷ (codes "QUERETARO", codes "QT")
    ∷ (codes "QUINTANA ROO", codes "QR")
    ∷ (codes "SAN LUIS POTOSI", codes "SP")
    ∷ (codes "SINALOA", codes "SL")
    ∷ (codes "SONORA", codes "SR")
    ∷ (codes "TABASCO", codes "TC")
    ∷ (codes "TAMAULIPAS", codes "TS")
    ∷ (codes "TLAXCALA", codes "TL")
    ∷ (codes "VERACRUZ", codes "VZ")
    ∷ (codes "YUCATAN", codes "YN")
    ∷ (codes "ZACATECAS", codes "ZS")
    ∷ (codes "NACIDO EN EL EXTRANJERO", codes "NE")
    ∷ []
